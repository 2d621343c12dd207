-- ===== src/Hw/Runs.antt =====
-- Any sequence of calls on an output stream, with the callbacks of the session between and during
-- them, keeps the promise of Life; and every call returns.
use Prim.Native.String.{String}
use device_phh_treble_doze.Base.{
  ◌≡◌, ◌≢◌, refl, ◌∙◌, true, false, List, [], ◌∷◌, ◌++◌, ℕ, arith, Option, none, some,
}
use device_phh_treble_doze.Codecs.Software.{PcmConfiguration}
use device_phh_treble_doze.Session.Types.{SessionType, Event}
use device_phh_treble_doze.Hw.Types.{
  BluetoothStreamState, disabled, started, state_eqb, ChannelMask, AudioFormat, Env,
}
use device_phh_treble_doze.Hw.Port.{concat, in_use, deliver_all}
use device_phh_treble_doze.Hw.Life
use device_phh_treble_doze.Hw.Life.{
  Phase, off, Input, request, run-append, run-off, has_switch_on, has_success, run-silent,
  is_playing, is_playing,
}
use device_phh_treble_doze.Hw.Out.{
  StreamOut, WriteEnv, Written, out_standby, out_pause, out_resume, out_write,
}
use device_phh_treble_doze.Hw.Params.{ParamNames, parse_audio_params, out_set_parameters}
use device_phh_treble_doze.Hw.Refine.{
  Follows-in_use, phase_of, inputs_of, Follows, deliver_all-Follows,
}
use device_phh_treble_doze.Hw.Streams.{
  settled_out, out_standby-Follows, out_pause-Follows, out_resume-Follows, out_write-Returns,
}
use device_phh_treble_doze.Hw.Switches.{params_inputs, out_set_parameters-Follows}

pub data Call : Type 0 where
  standbys pauses resumes : Env → Call
  sets_parameters : Env → String → Call
  writes : WriteEnv → List ℕ → ℕ → Call
  hears : List Event → Call

-- What the code uses from elsewhere.
pub record Platform : Type 0 where
  pub code : SessionType → ℕ
  pub names : ParamNames
  pub split : String → String → List String
  pub pcm_of : ℕ → PcmConfiguration
  pub frame_size : ChannelMask → AudioFormat → ℕ
  pub downmix : List ℕ → ℕ → List ℕ

module _ (pf : Platform) where
  abbrev pub after_writing : Option Written → Option StreamOut
  after_writing none = none
  after_writing (some w) =
      some (record w.stream { port = deliver_all pf.code w.stream.port w.rest })

  -- The stream once a call and the callbacks that come with it are done.
  unfoldable pub step : StreamOut → Call → Option StreamOut
  step out (standbys env) = some (settled_out pf.code (out_standby pf.code out env))
  step out (pauses env) = some (settled_out pf.code (out_pause pf.code out env))
  step out (resumes env) = some (settled_out pf.code (out_resume pf.code out env))
  step out (sets_parameters env kvpairs) =
      some (
        settled_out pf.code
          (out_set_parameters pf.code pf.pcm_of pf.names pf.split out env kvpairs))
  step out (writes env buffer bytes) =
      after_writing (out_write pf.code pf.pcm_of pf.frame_size pf.downmix out env buffer bytes)
  step out (hears events) = some (record out { port = deliver_all pf.code out.port events })

  unfoldable pub run : StreamOut → List Call → Option StreamOut
  run out [] = some out
  run out (c ∷ cs) = elim (step out c) [ none ↦ none | some after ↦ run after cs ]

  abbrev pub call_inputs : ℕ → SessionType → Call → List Input
  call_inputs cookie t (standbys env) =
      request false ∷ inputs_of cookie (env.during ++ concat env.wakes)
  call_inputs cookie t (pauses env) =
      request false ∷ inputs_of cookie (env.during ++ concat env.wakes)
  call_inputs cookie t (resumes env) =
      request true ∷ inputs_of cookie (env.during ++ concat env.wakes)
  call_inputs cookie t (sets_parameters env kvpairs) =
      params_inputs pf.code pf.names t (parse_audio_params pf.split kvpairs)
      ++ inputs_of cookie (env.during ++ concat env.wakes)
  call_inputs cookie t (writes env buffer bytes) =
      request true ∷ inputs_of cookie (env.port_env.during ++ concat env.port_env.wakes)
  call_inputs cookie t (hears events) = inputs_of cookie events

  unfoldable pub all_inputs : ℕ → SessionType → List Call → List Input
  all_inputs cookie t [] = []
  all_inputs cookie t (c ∷ cs) = call_inputs cookie t c ++ all_inputs cookie t cs

  step-Follows :
      (out : StreamOut) (c : Call)
      → in_use pf.code out.port ≡ true
      → (after : StreamOut) × (step out c ≡ some after)
        × Follows out.port (call_inputs out.port.cookie out.port.session_type c) after.port
  unfolding step
  step-Follows out (standbys env) used = (
    settled_out pf.code (out_standby pf.code out env),
    refl,
    out_standby-Follows pf.code out env used,
  )
  step-Follows out (pauses env) used = (
    settled_out pf.code (out_pause pf.code out env),
    refl,
    out_pause-Follows pf.code out env used,
  )
  step-Follows out (resumes env) used = (
    settled_out pf.code (out_resume pf.code out env),
    refl,
    out_resume-Follows pf.code out env used,
  )
  step-Follows out (sets_parameters env kvpairs) used = (
    settled_out pf.code (out_set_parameters pf.code pf.pcm_of pf.names pf.split out env kvpairs),
    refl,
    out_set_parameters-Follows pf.code pf.names pf.split pf.pcm_of out env kvpairs used,
  )
  step-Follows out (writes env buffer bytes) used =
      let (w, done, le, follows) =
        out_write-Returns pf.code pf.downmix pf.pcm_of pf.frame_size out env buffer bytes used in
      (record w.stream { port = deliver_all pf.code w.stream.port w.rest }, rw done refl, follows)
  step-Follows out (hears events) used = (
    record out { port = deliver_all pf.code out.port events },
    refl,
    deliver_all-Follows pf.code out.port events used,
  )

  run-Follows :
      (out : StreamOut) (cs : List Call)
      → in_use pf.code out.port ≡ true
      → (after : StreamOut) × (run out cs ≡ some after)
        × Follows out.port (all_inputs out.port.cookie out.port.session_type cs) after.port
  unfolding run all_inputs Life.run
  run-Follows out [] used = (out, refl, (refl, refl, refl))
  run-Follows out (c ∷ cs) used =
      let (mid, first, same) = step-Follows out c used in
      let (after, more, kept) = run-Follows mid cs (
        Follows-in_use pf.code out.port mid.port
          (call_inputs out.port.cookie out.port.session_type c) same used) in
      (
        after,
        ground (arith, first, more),
        ground (
          arith,
          same,
          kept,
          run-append (phase_of out.port.state) (call_inputs out.port.cookie out.port.session_type c)
              (all_inputs out.port.cookie out.port.session_type cs),
        ),
      )

  -- For a stream whose port is in use, every sequence of calls runs to its end: no write runs out of
  -- fuel. The port ends in the phase that the requests, the parameters and the callbacks for its
  -- cookie lead to in Life, wherever the callbacks fall: between the calls, while the stack is asked,
  -- or at any wake-up of a waiting call.
  pub stream_refines :
      (out : StreamOut) (cs : List Call)
      → in_use pf.code out.port ≡ true
      → (after : StreamOut) × (run out cs ≡ some after)
        × (phase_of after.port.state
            ≡ Life.run
                (phase_of out.port.state)
                (all_inputs out.port.cookie out.port.session_type cs))
  stream_refines out cs used =
      let (after, ran, follows) = run-Follows out cs used in (after, ran, follows.2)

  off_iff : (state : BluetoothStreamState) → phase_of state ≡ off → state ≡ disabled
  off_iff state h = ground arith

  -- A stream that is disabled, as `closing=true` leaves it, stays so through any calls and callbacks
  -- but an `A2dpSuspended` other than true, and a write then drops its data: it returns `bytes`,
  -- after a sleep of the preferred interval, and leaves the stream with its counters as it was.
  pub closed_stream_drops :
      (out : StreamOut) (cs : List Call) (env : WriteEnv) (buffer : List ℕ) (bytes : ℕ)
      → in_use pf.code out.port ≡ true
      → out.port.state ≡ disabled
      → has_switch_on (all_inputs out.port.cookie out.port.session_type cs) ≡ false
      → (after : StreamOut) × (run out cs ≡ some after)
        × (after.port.state ≡ disabled)
        × (out_write pf.code pf.pcm_of pf.frame_size pf.downmix after env buffer bytes
            ≡ some (record {
              stream = after;
              total = bytes;
              slept = after.preferred_data_interval_us;
              rest = env.port_env.during ++ concat env.port_env.wakes;
            }))
  unfolding out_write out_resume
  closed_stream_drops out cs env buffer bytes used closed no_switch =
      let (after, ran, phase) = stream_refines out cs used in
      let still : after.port.state ≡ disabled =
        off_iff after.port.state (phase ∙ ground (arith, closed, run-off _ no_switch)) in
      (after, ran, still, ground (arith, still))

  playing_lem :
      (state : BluetoothStreamState) → is_playing (phase_of state) ≡ state_eqb state started
  playing_lem state = ground arith

  idle_lem : (state : BluetoothStreamState) → state ≢ started → is_playing (phase_of state) ≡ false
  idle_lem state h = ground arith

  -- A stream that does not play plays only after a SUCCESS for its port's cookie: through calls and
  -- callbacks without one it never gets to STARTED.
  pub plays_after_success :
      (out : StreamOut) (cs : List Call)
      → in_use pf.code out.port ≡ true
      → out.port.state ≢ started
      → has_success (all_inputs out.port.cookie out.port.session_type cs) ≡ false
      → (after : StreamOut) × (run out cs ≡ some after)
        × (state_eqb after.port.state started ≡ false)
  plays_after_success out cs used idle silent =
      let (after, ran, phase) = stream_refines out cs used in
      (
        after,
        ran,
        ground (
          arith,
          phase,
          playing_lem after.port.state,
          run-silent (phase_of out.port.state) (all_inputs out.port.cookie out.port.session_type cs)
              (idle_lem out.port.state idle) silent,
        ),
      )
