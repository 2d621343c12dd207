-- ===== src/Hw/Waiting.antt =====
-- The waits of a port, its starts and suspensions, in the words of Life: however the callbacks fall on
-- the wake-ups, none is lost.
use device_phh_treble_doze.Base.{
  ◌≡◌, refl, Bool, true, false, List, [], ◌∷◌, ◌++◌, ℕ, arith, if◌then◌else◌, Bool-cases, inl, inr,
}
use device_phh_treble_doze.Session.Types.{SessionType, Event}
use device_phh_treble_doze.Hw.Types.{
  BluetoothStreamState, disabled, standby, starting, started, suspending, unknown_state, state_eqb,
  Port, Env,
}
use device_phh_treble_doze.Hw.Port.{
  concat, in_use, deliver, deliver_all, wait_for, condwait_state, start, suspend,
}
use device_phh_treble_doze.Hw.Life.{Input, request, next, run}
use device_phh_treble_doze.Hw.Refine.{inputs_of, Follows, deliver_all-Follows, deliver_all-same}

module _ (code : SessionType → ℕ) where
  -- However the callbacks fall on the wake-ups of a waiting thread, none is lost.
  deliver_all-append :
      (p : Port) (es fs : List Event)
      → deliver_all code p (es ++ fs) ≡ deliver_all code (deliver_all code p es) fs
  unfolding deliver_all
  deliver_all-append p [] fs = refl
  deliver_all-append p (e ∷ es) fs = deliver_all-append (deliver code p e) es fs

  wait_for-rest :
      (state : BluetoothStreamState) (p : Port) (ws : List (List Event))
      → let (q, retval, rest) = wait_for code state p ws in
        deliver_all code q rest ≡ deliver_all code p (concat ws)
  unfolding wait_for concat
  wait_for-rest state p [] = refl
  wait_for-rest state p (w ∷ ws) = elim (Bool-cases (state_eqb p.state state)) [
    | inl same ↦
        ground
          (arith, wait_for-rest state (deliver_all code p w) ws, deliver_all-append p w (concat ws))
    | inr differs ↦ ground arith
  ]

  condwait_state-rest :
      (p : Port) (state : BluetoothStreamState) (ws : List (List Event))
      → let (q, retval, rest) = condwait_state code p state ws in
        deliver_all code q rest ≡ deliver_all code p (concat ws)
  unfolding condwait_state
  condwait_state-rest p starting ws = wait_for-rest starting p ws
  condwait_state-rest p suspending ws = wait_for-rest suspending p ws
  condwait_state-rest p disabled ws = refl
  condwait_state-rest p standby ws = refl
  condwait_state-rest p started ws = refl
  condwait_state-rest p unknown_state ws = refl

  -- The port after a call, once the callbacks that the call has left over have come too.
  abbrev pub settled : Port × Bool × List Event → Port
  settled (p, retval, rest) = deliver_all code p rest

  settled-start :
      (p : Port) (env : Env)
      → in_use code p ≡ true
      → settled (start code p env)
        ≡ deliver_all code
            (if state_eqb p.state standby then record p { state = starting } else p)
            (env.during ++ concat env.wakes)
  unfolding start
  settled-start p env h = ground (
    arith,
    deliver_all-append (record p { state = starting }) env.during (concat env.wakes),
    condwait_state-rest (deliver_all code (record p { state = starting }) env.during) starting
        env.wakes,
  )

  settled-suspend :
      (p : Port) (env : Env)
      → in_use code p ≡ true
      → settled (suspend code p env)
        ≡ deliver_all code
            (if state_eqb p.state started then record p { state = suspending } else p)
            (env.during ++ concat env.wakes)
  unfolding suspend
  settled-suspend p env h = ground (
    arith,
    deliver_all-append (record p { state = suspending }) env.during (concat env.wakes),
    condwait_state-rest (deliver_all code (record p { state = suspending }) env.during) suspending
        env.wakes,
  )

  -- What the port is asked to do, and the callbacks of the call.
  abbrev pub asked : Bool → Port → Env → List Input
  asked b p env = request b ∷ inputs_of p.cookie (env.during ++ concat env.wakes)

  pub start-Follows :
      (p : Port) (env : Env)
      → in_use code p ≡ true
      → Follows p (asked true p env) (settled (start code p env))
  unfolding next in_use run
  start-Follows p env h = ground (
    arith,
    settled-start p env h,
    deliver_all-Follows code (record p { state = starting }) (env.during ++ concat env.wakes) h,
    deliver_all-Follows code p (env.during ++ concat env.wakes) h,
  )

  pub suspend-Follows :
      (p : Port) (env : Env)
      → in_use code p ≡ true
      → Follows p (asked false p env) (settled (suspend code p env))
  unfolding next in_use run
  suspend-Follows p env h = ground (
    arith,
    settled-suspend p env h,
    deliver_all-Follows code (record p { state = suspending }) (env.during ++ concat env.wakes) h,
    deliver_all-Follows code p (env.during ++ concat env.wakes) h,
  )

  -- A call leaves the port the same observer.
  wait_for-same :
      (state : BluetoothStreamState) (p : Port) (ws : List (List Event))
      → ((wait_for code state p ws).0.cookie ≡ p.cookie)
        × ((wait_for code state p ws).0.session_type ≡ p.session_type)
  unfolding wait_for
  wait_for-same state p [] = (refl, refl)
  wait_for-same state p (w ∷ ws) = elim (Bool-cases (state_eqb p.state state)) [
    | inl stays ↦
        ground (arith, wait_for-same state (deliver_all code p w) ws, deliver_all-same code p w)
    | inr differs ↦ ground arith
  ]

  pub suspend-same :
      (p : Port) (env : Env)
      → ((suspend code p env).0.cookie ≡ p.cookie)
        × ((suspend code p env).0.session_type ≡ p.session_type)
  unfolding suspend condwait_state
  suspend-same p env =
      let q : Port = record p { state = suspending } in
      ground (
        arith,
        deliver_all-same code q env.during,
        wait_for-same suspending (deliver_all code q env.during) env.wakes,
      )
