-- ===== src/Hw/Refine.antt =====
-- The calls of a port in use keep the promise of Life: after a call and all the callbacks of its
-- environment, the port is in the phase that the request and these callbacks lead to.
use device_phh_treble_doze.Base.{
  ◌≡◌, refl, ◌∙◌, true, false, List, [], ◌∷◌, ◌++◌, ℕ, ◌==◌, arith, if◌then◌else◌, ◌⊎◌,
}
use device_phh_treble_doze.Session.Types.{
  SessionType, Event, session_changed, control_result, audio_configuration_changed,
  low_latency_mode_allowed,
}
use device_phh_treble_doze.Hw.Types.{
  BluetoothStreamState, disabled, standby, starting, started, suspending, unknown_state, Port,
}
use device_phh_treble_doze.Hw.Port.{
  after_result, in_use, control_result_handler, session_changed_handler, deliver, deliver_all,
  start,
}
use device_phh_treble_doze.Hw.Life.{
  Phase, off, quiet, playing, lost, moving, Input, reply, switch_off, next, run, run-append,
  run-off, has_switch_on,
}

abbrev pub phase_of : BluetoothStreamState → Phase
phase_of disabled = off
phase_of standby = quiet
phase_of starting = moving true
phase_of started = playing
phase_of suspending = moving false
phase_of unknown_state = lost

-- What the callbacks for an observer's cookie tell.
abbrev pub input_of : ℕ → Event → List Input
input_of cookie (control_result c start status) = if c == cookie then reply status ∷ [] else []
input_of cookie (session_changed c) = if c == cookie then switch_off ∷ [] else []
input_of cookie _ = []

unfoldable pub inputs_of : ℕ → List Event → List Input
inputs_of cookie [] = []
inputs_of cookie (e ∷ es) = input_of cookie e ++ inputs_of cookie es

callbacks_only : (cookie : ℕ) (es : List Event) → has_switch_on (inputs_of cookie es) ≡ false
unfolding inputs_of has_switch_on
callbacks_only cookie [] = refl
callbacks_only cookie (control_result c b status ∷ es) = ground (arith, callbacks_only cookie es)
callbacks_only cookie (session_changed c ∷ es) = ground (arith, callbacks_only cookie es)
callbacks_only cookie (audio_configuration_changed c ∷ es) = callbacks_only cookie es
callbacks_only cookie (low_latency_mode_allowed c b ∷ es) = callbacks_only cookie es

after_result-next :
    (state : BluetoothStreamState) (status : _)
    → phase_of (after_result state status) ≡ next (phase_of state) (reply status)
unfolding after_result next
after_result-next state status = ground arith

off-next : (state : BluetoothStreamState) → next (phase_of state) switch_off ≡ off
unfolding next
off-next state = ground arith

-- `q` is the same observer as `p`, in the phase that the inputs lead to.
abbrev pub Follows : Port → List Input → Port → Type 0
Follows p is q =
    (q.cookie ≡ p.cookie)
    × (q.session_type ≡ p.session_type)
    × (phase_of q.state ≡ run (phase_of p.state) is)

module _ (code : SessionType → ℕ) where
  -- The callbacks move nothing but the state.
  deliver-same :
      (p : Port) (e : Event)
      → ((deliver code p e).cookie ≡ p.cookie)
        × ((deliver code p e).session_type ≡ p.session_type)
        × (in_use code (deliver code p e) ≡ in_use code p)
  unfolding deliver control_result_handler session_changed_handler in_use
  deliver-same p e = ground arith

  deliver-run :
      (p : Port) (e : Event)
      → in_use code p ≡ true
      → phase_of (deliver code p e).state ≡ run (phase_of p.state) (input_of p.cookie e)
  unfolding deliver control_result_handler session_changed_handler run next
  deliver-run p (control_result c b status) h = ground (arith, after_result-next p.state status)
  deliver-run p (session_changed c) h = ground (arith, off-next p.state)
  deliver-run p (audio_configuration_changed c) h = refl
  deliver-run p (low_latency_mode_allowed c b) h = refl

  pub deliver_all-Follows :
      (p : Port) (es : List Event)
      → in_use code p ≡ true
      → Follows p (inputs_of p.cookie es) (deliver_all code p es)
  unfolding deliver_all inputs_of run
  deliver_all-Follows p [] h = (refl, refl, refl)
  deliver_all-Follows p (e ∷ es) h =
      let same = deliver-same p e in
      let rest = deliver_all-Follows (deliver code p e) es (same.2 ∙ h) in
      ground (
        arith,
        same,
        rest,
        deliver-run p e h,
        run-append (phase_of p.state) (input_of p.cookie e) (inputs_of p.cookie es),
      )

  pub deliver_all-same :
      (p : Port) (es : List Event)
      → ((deliver_all code p es).cookie ≡ p.cookie)
        × ((deliver_all code p es).session_type ≡ p.session_type)
  unfolding deliver_all
  deliver_all-same p [] = (refl, refl)
  deliver_all-same p (e ∷ es) =
      ground (arith, deliver-same p e, deliver_all-same (deliver code p e) es)

  -- Callbacks that come to a port which is switched off by then leave it so.
  pub settle-Follows :
      (p q : Port) (is : List Input) (rest all : List Event)
      → in_use code p ≡ true
      → Follows p is q
      → (rest ≡ all) ⊎ (q.state ≡ disabled)
      → Follows p (is ++ inputs_of p.cookie all) (deliver_all code q rest)
  unfolding in_use
  settle-Follows p q is rest all used follows left = ground (
    arith,
    deliver_all-Follows q rest (ground arith),
    run-append (phase_of p.state) is (inputs_of p.cookie all),
    run-off (inputs_of p.cookie all) (callbacks_only p.cookie all),
    run-off (inputs_of q.cookie rest) (callbacks_only q.cookie rest),
  )

  pub join-Follows :
      (p q r : Port) (is js : List Input) → Follows p is q → Follows q js r → Follows p (is ++ js) r
  join-Follows p q r is js h k = ground (arith, h, k, run-append (phase_of p.state) is js)

  pub Follows-in_use :
      (p q : Port) (is : List Input) → Follows p is q → in_use code p ≡ true → in_use code q ≡ true
  unfolding in_use
  Follows-in_use p q is h used = ground (arith, h)
