-- ===== src/Hw/Streams.antt =====
-- What each call on an output stream asks of its port, in the words of Life; and a write returns.
use device_phh_treble_doze.Base.{
  ◌≡◌, refl, ◌≤◌, true, false, List, [], ◌∷◌, ◌++◌, ℕ, ◌==◌, arith, if◌then◌else◌, Bool-cases, inl,
  inr, Option, some, ◌*◌, ◌/◌,
}
use device_phh_treble_doze.Codecs.Software.{PcmConfiguration}
use device_phh_treble_doze.Session.Types.{SessionType, Event}
use device_phh_treble_doze.Session.Pcm.{WriteRound}
use device_phh_treble_doze.Session.Pcm.Total.{out_write_total}
use device_phh_treble_doze.Hw.Types.{
  disabled, started, state_eqb, ChannelMask, AudioFormat, Port, Env,
}
use device_phh_treble_doze.Hw.Port.{concat, in_use, deliver_all, stop}
use device_phh_treble_doze.Hw.Life.{switch_off, next, run}
use device_phh_treble_doze.Hw.Out.{
  is_ok, StreamOut, Retval, WriteEnv, Written, out_standby, out_pause, out_resume, close_port,
  write_data, after_write, written, out_write,
}
use device_phh_treble_doze.Hw.Refine.{Follows, deliver_all-Follows}
use device_phh_treble_doze.Hw.Waiting.{asked, start-Follows, suspend-Follows}

-- A write returns a count of at most `bytes`, whatever the other threads do.
pub write_data_total :
    (code : SessionType → ℕ) (downmix : List ℕ → ℕ → List ℕ) (p : Port) (rounds : ℕ → WriteRound)
    (buffer : List ℕ) (bytes : ℕ)
    → (n : ℕ) × (write_data code downmix p rounds buffer bytes ≡ some n) × (n ≤ bytes)
unfolding write_data
write_data_total code downmix p rounds buffer bytes =
    let (p1, e1, k1) = out_write_total rounds buffer bytes in
    let (p2, e2, k2) = out_write_total rounds (downmix buffer (bytes / 4)) (bytes / 4 * 2) in
    elim (Bool-cases (in_use code p)) [
      | inr unused ↦ (0, ground arith, omega arith)
      | inl used ↦ elim (Bool-cases p.is_stereo_to_mono) [
        | inr plain ↦ (p1.total * 1, ground arith, ground arith)
        | inl mono ↦ elim (Bool-cases (bytes / 4 == 0)) [
          | inl small ↦ (0, ground arith, omega arith)
          | inr enough ↦ (p2.total * 2, ground arith, ground arith)
        ]
      ]
    ]

module _ (code : SessionType → ℕ) where
  abbrev pub settled_out : StreamOut × Retval × List Event → StreamOut
  settled_out (out, retval, rest) = record out { port = deliver_all code out.port rest }

  pub out_standby-Follows :
      (out : StreamOut) (env : Env)
      → in_use code out.port ≡ true
      → Follows out.port
          (asked code false out.port env)
          (settled_out (out_standby code out env)).port
  unfolding out_standby run next
  out_standby-Follows out env h = ground (
    arith,
    suspend-Follows code out.port env h,
    deliver_all-Follows code out.port (env.during ++ concat env.wakes) h,
  )

  pub out_resume-Follows :
      (out : StreamOut) (env : Env)
      → in_use code out.port ≡ true
      → Follows out.port (asked code true out.port env) (settled_out (out_resume code out env)).port
  unfolding out_resume run next
  out_resume-Follows out env h = ground (
    arith,
    start-Follows code out.port env h,
    deliver_all-Follows code out.port (env.during ++ concat env.wakes) h,
  )

  pub out_pause-Follows :
      (out : StreamOut) (env : Env)
      → in_use code out.port ≡ true
      → Follows out.port (asked code false out.port env) (settled_out (out_pause code out env)).port
  unfolding out_pause run next
  out_pause-Follows out env h = ground (
    arith,
    suspend-Follows code out.port env h,
    deliver_all-Follows code out.port (env.during ++ concat env.wakes) h,
  )

  pub close_port-Follows :
      (out : StreamOut)
      → in_use code out.port ≡ true
      → Follows out.port (switch_off ∷ []) (close_port code out).port
  unfolding close_port stop run next
  close_port-Follows out h = ground arith

  playing-Follows :
      (out : StreamOut) (env : Env)
      → state_eqb out.port.state started ≡ true
      → in_use code out.port ≡ true
      → Follows out.port
          (asked code true out.port env)
          (deliver_all code out.port (env.during ++ concat env.wakes))
  unfolding run next
  playing-Follows out env plays used =
      ground (arith, deliver_all-Follows code out.port (env.during ++ concat env.wakes) used)

  module _ (downmix : List ℕ → ℕ → List ℕ) (pcm_of : ℕ → PcmConfiguration) where
    -- A write returns a count of at most `bytes`, and asks the port for a start if it is in standby.
    abbrev pub Returns : StreamOut → WriteEnv → ℕ → Option Written → Type 0
    Returns out env bytes result =
        (w : Written) × (result ≡ some w)
        × (w.total ≤ bytes)
        × Follows out.port (asked code true out.port env.port_env)
            (deliver_all code w.stream.port w.rest)

    after_write-port :
        (frame_size : ChannelMask → AudioFormat → ℕ) (out : StreamOut) (env : WriteEnv)
        (bytes n : ℕ)
        → (after_write code pcm_of frame_size out env bytes n).0.port ≡ out.port
    unfolding after_write
    after_write-port frame_size out env bytes n = ground arith

    written-Returns :
        (frame_size : ChannelMask → AudioFormat → ℕ) (out resumed : StreamOut) (env : WriteEnv)
        (rest : List Event) (buffer : List ℕ) (bytes : ℕ)
        → Follows out.port
            (asked code true out.port env.port_env)
            (deliver_all code resumed.port rest)
        → Returns out env bytes (
            written code pcm_of frame_size resumed env bytes rest
              (write_data code downmix resumed.port env.rounds buffer bytes))
    written-Returns frame_size out resumed env rest buffer bytes follows =
        let (n, e, le) = write_data_total code downmix resumed.port env.rounds buffer bytes in
        let (stream, slept) = after_write code pcm_of frame_size resumed env bytes n in
        rw e (
          record { stream = stream; total = n; slept = slept; rest = rest },
          refl,
          le,
          rw (after_write-port frame_size resumed env bytes n) follows,
        )

    pub out_write-Returns :
        (frame_size : ChannelMask → AudioFormat → ℕ) (out : StreamOut) (env : WriteEnv)
        (buffer : List ℕ) (bytes : ℕ)
        → in_use code out.port ≡ true
        → Returns out env bytes (out_write code pcm_of frame_size downmix out env buffer bytes)
    unfolding out_write
    out_write-Returns frame_size out env buffer bytes used =
        let (resumed, retval, rest) = out_resume code out env.port_env in
        elim (Bool-cases (state_eqb out.port.state started)) [
          | inl plays ↦ rw plays (
              written-Returns frame_size out out env
                (env.port_env.during ++ concat env.port_env.wakes) buffer bytes
                (playing-Follows out env.port_env plays used))
          | inr other ↦ elim (Bool-cases (is_ok retval)) [
            | inl done ↦
                rw (other, done)
                  (written-Returns frame_size out resumed env rest buffer bytes
                    (out_resume-Follows out env.port_env used))
            | inr failed ↦
                rw (other, failed)
                  (
                    record {
                      stream = resumed;
                      total = if state_eqb resumed.port.state disabled then bytes else 0;
                      slept = resumed.preferred_data_interval_us;
                      rest = rest;
                    },
                    refl,
                    ground arith,
                    out_resume-Follows out env.port_env used,
                  )
          ]
        ]
