-- ===== src/Fingerprint/Coherent.antt =====
-- What the threads of hal/anakin-fp/BiometricsFingerprint.cpp keep, in every interleaving.
use device_phh_treble_doze.Base.{
  ℕ, ◌≡◌, refl, subst, sym, ◌∙◌, arith, Bool, true, false, not, ◌&&◌, List, [], ◌∷◌, All,
  if◌then◌else◌,
}
use device_phh_treble_doze.Fingerprint.Goodix.{
  GoodixCommand, Sensor, Stage, counts, stores_finger, resets_light, clears_queue, requests_hbm,
  pushes, Holder, free, pressing, lifting, on_finger_down, on_finger_up, press, lift, proceed,
  enqueue_goodix_command, serve, send_command, on_spot, exchange_spot, close_spot, check_finger,
  check_sequence, exchange, when_free,
}
use device_phh_treble_doze.Fingerprint.Settled.{
  IsCurrent, has_finger_up, IsFitting, IsLight, IsLightCommand, IsSettled, serve-IsSettled,
}

-- What holds of the sequence, the finger, the queue and the request, by the holder of the mutex.
abbrev pub IsReady : Holder → ℕ → Bool → List GoodixCommand → Bool → Type 0
IsReady free sequence is_down queue requested =
    All (IsCurrent sequence is_down) queue
    × ((is_down && not requested) ≡ false)
    × ((requested && (not is_down && not (has_finger_up queue))) ≡ false)
IsReady (pressing counts) sequence is_down queue requested = Unit
IsReady (pressing stores_finger) sequence is_down queue requested = Unit
IsReady (pressing resets_light) sequence is_down queue requested = is_down ≡ true
IsReady (pressing clears_queue) sequence is_down queue requested = is_down ≡ true
IsReady (pressing requests_hbm) sequence is_down queue requested = (is_down ≡ true) × (queue ≡ [])
IsReady (pressing pushes) sequence is_down queue requested =
    (is_down ≡ true) × (queue ≡ []) × (requested ≡ true)
IsReady (lifting counts) sequence is_down queue requested = Unit
IsReady (lifting stores_finger) sequence is_down queue requested = Unit
IsReady (lifting resets_light) sequence is_down queue requested = is_down ≡ false
IsReady (lifting clears_queue) sequence is_down queue requested = is_down ≡ false
IsReady (lifting requests_hbm) sequence is_down queue requested = ⊥
IsReady (lifting pushes) sequence is_down queue requested = (is_down ≡ false) × (queue ≡ [])

abbrev pub IsCoherent : Sensor → Type 0
IsCoherent s =
    IsReady s.holder s.sequence s.is_down s.queue s.hbm_requested
    × (All IsFitting s.sent × All IsLightCommand s.armed × All IsLight s.calling)

pub settle : (s : Sensor) → s.holder ≡ free → IsCoherent s → IsSettled s
settle s e (r, (f, a, l)) =
    let (q, b, c) = subst (λ h. IsReady h s.sequence s.is_down s.queue s.hbm_requested) e r in
    (q, b, c, f, a, l)

pub unsettle : (s : Sensor) → s.holder ≡ free → IsSettled s → IsCoherent s
unsettle s e (q, b, c, f, a, l) = (
  subst (λ h. IsReady h s.sequence s.is_down s.queue s.hbm_requested) (sym e) (q, b, c),
  (f, a, l),
)

pub serve_holder : (cs : List GoodixCommand) (s : Sensor) → (serve cs s).holder ≡ s.holder
unfolding serve send_command
serve_holder [] s = refl
serve_holder (c ∷ cs) s = ground arith

pub enqueue_holder :
    (c : GoodixCommand) (s : Sensor) → (enqueue_goodix_command c s).holder ≡ s.holder
unfolding enqueue_goodix_command
enqueue_holder c s = ground arith

pub serve-IsCoherent : (s : Sensor) → s.holder ≡ free → IsCoherent s → IsCoherent (serve s.queue s)
serve-IsCoherent s e h =
    unsettle (serve s.queue s) (serve_holder s.queue s ∙ e)
      (serve-IsSettled s s.queue refl (settle s e h))

pub on_finger_down-IsCoherent : (s : Sensor) → IsCoherent s → IsCoherent (on_finger_down s)
unfolding on_finger_down
on_finger_down-IsCoherent s (r, rest) = go s.holder
  where
    go :
        (h : Holder)
        → IsCoherent (elim h [
          | free ↦ record s { holder = pressing counts }
          | pressing stage ↦ s
          | lifting stage ↦ s
        ])
    go free = (tt, rest)
    go (pressing stage) = (r, rest)
    go (lifting stage) = (r, rest)

pub on_finger_up-IsCoherent : (s : Sensor) → IsCoherent s → IsCoherent (on_finger_up s)
unfolding on_finger_up
on_finger_up-IsCoherent s (r, rest) = go s.holder
  where
    begins : (up : Bool) → IsCoherent (if up then s else record s { holder = lifting counts })
    begins true = (r, rest)
    begins false = (tt, rest)

    go :
        (h : Holder)
        → IsCoherent (elim h [
          | free ↦ if not s.is_down then s else record s { holder = lifting counts }
          | pressing stage ↦ s
          | lifting stage ↦ s
        ])
    go free = begins (not s.is_down)
    go (pressing stage) = (r, rest)
    go (lifting stage) = (r, rest)

abbrev IsCalling : Holder → Sensor → Type 0
IsCalling h s =
    IsReady h s.sequence s.is_down s.queue s.hbm_requested
    × (All IsFitting s.sent × All IsLightCommand s.armed × All IsLight s.calling)

press-IsCoherent :
    (stage : Stage) (s : Sensor) → IsCalling (pressing stage) s → IsCoherent (press stage s)
unfolding press
press-IsCoherent counts s (r, rest) = (tt, rest)
press-IsCoherent stores_finger s (r, rest) = (refl, rest)
press-IsCoherent resets_light s (r, rest) = (r, rest)
press-IsCoherent clears_queue s (r, rest) = ((r, refl), rest)
press-IsCoherent requests_hbm s ((down, empty), rest) = ((down, empty, refl), rest)
press-IsCoherent pushes s ((down, empty, requested), rest) =
    (rw (empty, down, requested) (((refl, refl), tt), refl, refl), rest)

lift-IsCoherent :
    (stage : Stage) (s : Sensor) → IsCalling (lifting stage) s → IsCoherent (lift stage s)
unfolding lift
lift-IsCoherent counts s (r, rest) = (tt, rest)
lift-IsCoherent stores_finger s (r, rest) = (refl, rest)
lift-IsCoherent resets_light s (r, rest) = (r, rest)
lift-IsCoherent clears_queue s (r, rest) = ((r, refl), rest)
lift-IsCoherent requests_hbm s (r, rest) = absurd r
lift-IsCoherent pushes s ((up, empty), rest) =
    (rw (empty, up) (((refl, refl), tt), refl, ground arith), rest)

pub proceed-IsCoherent : (s : Sensor) → IsCoherent s → IsCoherent (proceed s)
unfolding proceed
proceed-IsCoherent s (r, rest) = go s.holder r
  where
    go :
        (h : Holder)
        → IsReady h s.sequence s.is_down s.queue s.hbm_requested
        → IsCoherent
            (elim h [ free ↦ s | pressing stage ↦ press stage s | lifting stage ↦ lift stage s ])
    go free h = (r, rest)
    go (pressing stage) h = press-IsCoherent stage s (h, rest)
    go (lifting stage) h = lift-IsCoherent stage s (h, rest)

-- A step that needs the mutex.
pub when_free-IsCoherent :
    (s t : Sensor)
    → IsCoherent s
    → (s.holder ≡ free → IsCoherent t)
    → IsCoherent (when_free s.holder s t)
when_free-IsCoherent s t h more = go s.holder more
  where
    go : (k : Holder) → (k ≡ free → IsCoherent t) → IsCoherent (when_free k s t)
    go free more = more refl
    go (pressing stage) more = h
    go (lifting stage) more = h

pub on_spot-IsCoherent : (ready : Bool) (s : Sensor) → IsCoherent s → IsCoherent (on_spot ready s)
unfolding on_spot
on_spot-IsCoherent true s h = grind arith
on_spot-IsCoherent false s h = h

pub exchange_spot-IsCoherent : (s : Sensor) → IsCoherent s → IsCoherent (exchange_spot s)
unfolding exchange_spot
exchange_spot-IsCoherent s h = grind arith

pub close_spot-IsCoherent : (s : Sensor) → IsCoherent s → IsCoherent (close_spot s)
unfolding close_spot
close_spot-IsCoherent s h = grind arith

pub check_finger-IsCoherent : (n : ℕ) (s : Sensor) → IsCoherent s → IsCoherent (check_finger n s)
unfolding check_finger
check_finger-IsCoherent n s h = grind arith

pub check_sequence-IsCoherent :
    (n : ℕ) (s : Sensor) → IsCoherent s → IsCoherent (check_sequence n s)
unfolding check_sequence
check_sequence-IsCoherent n s h = grind arith

pub exchange-IsCoherent : (n : ℕ) (s : Sensor) → IsCoherent s → IsCoherent (exchange n s)
unfolding exchange
exchange-IsCoherent n s h = grind arith
