-- ===== src/Hw/Waits.antt =====
-- The waits of the input streams end, and so do the calls that wait.
use device_phh_treble_doze.Base.{
  ℕ, zero, suc, ◌+◌, ◌*◌, ◌%◌, ◌≤◌, ◌<◌, ◌≡◌, refl, subst, Bool, true, false, List, ◌++◌, Option,
  some, ◌==◌, arith, if◌then◌else◌, Bool-cases, ◌⊎◌, inl, inr,
}
use device_phh_treble_doze.Codecs.Software.{PcmConfiguration}
use device_phh_treble_doze.Session.Types.{SessionType, Event}
use device_phh_treble_doze.Session.Pcm.Total.{in_read_total}
use device_phh_treble_doze.Hw.Types.{
  BluetoothStreamState, starting, started, suspending, state_eqb, ChannelMask, AudioFormat, Port,
}
use device_phh_treble_doze.Hw.Port.{in_use, deliver_all, concat, suspend}
use device_phh_treble_doze.Hw.Out.{Retval, ok, eio, ebusy, is_ok, retval_of}
use device_phh_treble_doze.Hw.In.{
  StreamIn, InEnv, ReadResult, failed, count, k_bluetooth_default_input_state_timeout_ms,
  transition_loop, in_state_transition_timeout, standby_end, standby_from, in_standby, start_input,
  read_data, read_from, in_read,
}

abbrev pub WithinRequest : ℕ → ReadResult → Type 0
WithinRequest bytes (failed retval) = is_ok retval ≡ false
WithinRequest bytes (count n) = n ≤ bytes

retval_cases : (done : Bool) → (retval_of done ≡ ok) ⊎ (retval_of done ≡ eio)
retval_cases true = inl refl
retval_cases false = inr refl

module _ (code : SessionType → ℕ) where
  -- A wait that ends: it has left the state, or has slept for the whole of the timeout.
  abbrev pub Ends : BluetoothStreamState → ℕ → Option (Port × Bool × ℕ) → Type 0
  Ends state limit result =
      (p : Port) × (done : Bool) × (slept : ℕ) × (result ≡ some (p, done, slept))
      × (slept ≤ limit)
      × ((if done then state_eqb p.state state else slept == limit)
          ≡ (if done then false else true))

  loop-Ends :
      (sleeps : ℕ → List Event) (state : BluetoothStreamState) (fuel n timeout_ms : ℕ) (p : Port)
      → 0 < timeout_ms
      → timeout_ms < 65536
      → timeout_ms < fuel
      → Ends state (n + timeout_ms) (transition_loop code sleeps state fuel n timeout_ms p)
  unfolding transition_loop
  loop-Ends sleeps state zero n t p positive small enough = absurd (omega arith)
  loop-Ends sleeps state (suc fuel) n t p positive small enough =
      elim (Bool-cases (state_eqb p.state state)) [
        | inr left ↦ (p, true, n, ground arith, omega arith, left)
        | inl stays ↦ elim (Bool-cases ((t + 65535) % 65536 == 0)) [
          | inl last ↦
              (deliver_all code p (sleeps n), false, n + 1, ground arith, omega arith, ground arith)
          | inr more ↦
              let (q, done, slept, ran, le, why) =
                loop-Ends sleeps state fuel (n + 1) ((t + 65535) % 65536)
                  (deliver_all code p (sleeps n)) (ground arith) (ground arith) (ground arith) in
              (q, done, slept, ground arith, ground arith, ground arith)
        ]
      ]

  -- With a timeout of 1 to 65535 ms, `in_state_transition_timeout` returns, whatever callbacks come
  -- while it sleeps: after at most that many sleeps, either true with the port out of the state, or
  -- false after all of them.
  pub transition-Ends :
      (sleeps : ℕ → List Event) (state : BluetoothStreamState) (timeout_ms : ℕ) (p : Port)
      → 0 < timeout_ms
      → timeout_ms < 65536
      → Ends state timeout_ms (in_state_transition_timeout code sleeps state timeout_ms p)
  unfolding in_state_transition_timeout
  transition-Ends sleeps state timeout_ms p positive small =
      subst (λ k. Ends state k (transition_loop code sleeps state 65536 0 timeout_ms p))
        (omega arith) (loop-Ends sleeps state 65536 0 timeout_ms p positive small small)

  -- `in_standby` has returned 0 or -EIO within 40 sleeps.
  abbrev pub Settles : Option (StreamIn × Retval × ℕ × List Event) → Type 0
  Settles result =
      (after : StreamIn) × (retval : Retval) × (slept : ℕ) × (rest : List Event) × (result
        ≡ some (after, retval, slept, rest))
      × (slept ≤ 40)
      × ((retval ≡ ok) ⊎ (retval ≡ eio))

  end-Settles :
      (sin : StreamIn) (env : InEnv) (q : Port) (slept : ℕ) (done : Bool) (rest : List Event)
      → slept ≤ 20
      → Settles (
          standby_end code sin slept (retval_of done) rest (
            in_state_transition_timeout code env.after suspending
              k_bluetooth_default_input_state_timeout_ms q))
  end-Settles sin env q slept done rest le =
      let (r, left, n, ran, few, why) =
        transition-Ends env.after suspending 20 q (omega arith) (omega arith) in
      rw ran (left_cases r left n few)
    where
      left_cases :
          (r : Port) (left : Bool) (n : ℕ)
          → n ≤ 20
          → Settles (standby_end code sin slept (retval_of done) rest (some (r, left, n)))
      left_cases r true n few = (
        record sin { port = r },
        retval_of done,
        slept + n,
        rest,
        refl,
        omega arith,
        retval_cases done,
      )
      left_cases r false n few =
          (record sin { port = r }, ok, slept + n, rest, refl, omega arith, inl refl)

  standby_from-Settles :
      (sin : StreamIn) (env : InEnv) (p : Port) (ready : Bool) (slept : ℕ)
      → slept ≤ 20
      → Settles (standby_from code sin env (some (p, ready, slept)))
  standby_from-Settles sin env p false slept le = (
    record sin { port = p },
    ok,
    slept,
    env.port_env.during ++ concat env.port_env.wakes,
    refl,
    omega arith,
    inl refl,
  )
  standby_from-Settles sin env p true slept le = elim (Bool-cases (state_eqb p.state started)) [
    | inl plays ↦
        let (q, done, rest) = suspend code p env.port_env in
        rw plays (end-Settles sin env q slept done rest le)
    | inr other ↦ elim (Bool-cases (state_eqb p.state suspending)) [
      | inl moving ↦
          rw (other, moving)
            (end-Settles sin env p slept true (env.port_env.during ++ concat env.port_env.wakes) le)
      | inr still ↦
          rw (other, still)
            (
              record sin { port = p },
              ok,
              slept,
              env.port_env.during ++ concat env.port_env.wakes,
              refl,
              omega arith,
              inl refl,
            )
    ]
  ]

  -- `in_standby` returns 0 or -EIO after at most 40 sleeps of a millisecond, whatever callbacks come
  -- and whatever the stack answers.
  pub in_standby_returns : (sin : StreamIn) (env : InEnv) → Settles (in_standby code sin env)
  unfolding in_standby
  in_standby_returns sin env =
      let (p, ready, slept, ran, few, why) =
        transition-Ends env.before starting 20 sin.port (omega arith) (omega arith) in
      rw ran (standby_from-Settles sin env p ready slept few)

  read_data_total :
      (p : Port) (rounds : _) (bytes : ℕ)
      → (n : ℕ) × (read_data code p rounds bytes ≡ some n) × (n ≤ bytes)
  unfolding read_data
  read_data_total p rounds bytes =
      let (q, done, (le, moved)) = in_read_total rounds bytes in
      elim (Bool-cases (in_use code p)) [
        | inl used ↦ (q.total * 1, ground arith, ground arith)
        | inr unused ↦ (0, ground arith, omega arith)
      ]

  module _ (pcm_of : ℕ → PcmConfiguration) (frame_size : ChannelMask → AudioFormat → ℕ) where
    -- `in_read` has returned an error, or a count of at most `bytes`.
    abbrev pub Reads : ℕ → Option (StreamIn × ReadResult × List Event) → Type 0
    Reads bytes result =
        (after : StreamIn) × (given : ReadResult) × (rest : List Event) × (result
          ≡ some (after, given, rest))
        × WithinRequest bytes given

    read_from-Reads :
        (sin : StreamIn) (env : InEnv) (bytes : ℕ) (p : Port) (ready : Bool) (slept : ℕ)
        → Reads bytes (read_from code pcm_of frame_size sin env bytes (some (p, ready, slept)))
    read_from-Reads sin env bytes p false slept = (
      record sin { port = p },
      failed ebusy,
      env.port_env.during ++ concat env.port_env.wakes,
      refl,
      refl,
    )
    read_from-Reads sin env bytes p true slept =
        let (q, retval, rest) = start_input code p env.port_env in
        let (n, read, le) = read_data_total q env.rounds bytes in
        elim (Bool-cases (is_ok retval)) [
          | inl done ↦ rw (done, read) (_, count n, rest, refl, le)
          | inr failing ↦ rw failing (record sin { port = q }, failed retval, rest, refl, failing)
        ]

    -- `in_read` returns, whatever the other threads do: an error, or a count of at most `bytes`.
    pub in_read_returns :
        (sin : StreamIn) (env : InEnv) (bytes : ℕ)
        → Reads bytes (in_read code pcm_of frame_size sin env bytes)
    unfolding in_read
    in_read_returns sin env bytes =
        let (p, ready, slept, ran, few, why) =
          transition-Ends env.before starting 20 sin.port (omega arith) (omega arith) in
        rw ran (read_from-Reads sin env bytes p ready slept)
