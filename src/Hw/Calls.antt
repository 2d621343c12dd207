-- ===== src/Hw/Calls.antt =====
-- What the calls on a port do to it and to its session.
use device_phh_treble_doze.Base.{
  ◌≡◌, refl, Bool, true, false, ◌&&◌, List, [], ◌∷◌, ℕ, ◌==◌, ==_iff, arith,
}
use device_phh_treble_doze.Session.Types.{
  PortStatusCallbacks, SessionType, Session, Event, control_result, success,
}
use device_phh_treble_doze.Session.State.{is_session_ready, start_stream, call_port}
use device_phh_treble_doze.Session.Cookies.{
  cookie_undefined, erase, is_registered, register_status_cback, unregister_status_cback,
}
use device_phh_treble_doze.Hw.Types.{disabled, standby, starting, started, AudioDevice, Port, Env}
use device_phh_treble_doze.Hw.Port.{
  port_callbacks, in_use, deliver, deliver_all, concat, after_result, control_result_handler,
  set_up, tear_down, wait_for, condwait_state, start, stop, init_session_type,
}
use device_phh_treble_doze.Hw.Out.{
  StreamOut, eio, ebusy, out_standby, out_pause, out_resume, close_port, adev_close_output_stream,
}

module _ (code : SessionType → ℕ) where
  registers_lem :
      (s : Session) (callbacks : PortStatusCallbacks)
      → let (after, cookie) = register_status_cback code s callbacks in
        (cookie == cookie_undefined code) ≡ false
        → (is_registered after.observers cookie ≡ true) × (unregister_status_cback after cookie ≡ s)
  unfolding register_status_cback unregister_status_cback is_registered erase
  registers_lem s callbacks h = ground arith

  init_ready :
      (sessions : SessionType → Session) (p : Port) (device : AudioDevice)
      → let (q, ready) = init_session_type sessions p device in
        ready ≡ true → is_session_ready (sessions q.session_type) ≡ true
  unfolding init_session_type
  init_ready sessions p device h = ground arith

  -- When `SetUp` succeeds, the session of the port's type was ready, the port is in use and in
  -- standby, and its cookie is registered with that session; a `TearDown` then takes the port out of
  -- use and leaves the session as it was before `SetUp`.
  pub tear_down-set_up :
      (sessions : SessionType → Session) (p : Port) (device : AudioDevice)
      → (set_up code sessions p device).2 ≡ true
      → let (q, s, retval) = set_up code sessions p device in
        (is_session_ready (sessions q.session_type) ≡ true)
        × (in_use code q ≡ true)
        × (q.state ≡ standby)
        × (is_registered s.observers q.cookie ≡ true)
        × (in_use code (tear_down code q s).0 ≡ false)
        × ((tear_down code q s).1 ≡ sessions q.session_type)
  unfolding set_up tear_down in_use
  tear_down-set_up sessions p device h =
      let q = (init_session_type sessions p device).0 in
      ground (
        arith,
        init_ready sessions p device,
        registers_lem (sessions q.session_type) port_callbacks,
      )

  -- When `Start` returns true, the port was in use and in standby, the session was ready and the
  -- stack accepted the request, and the port is started.
  pub start_reports :
      (p : Port) (env : Env)
      → (start code p env).1 ≡ true
      → (in_use code p ≡ true)
        × (p.state ≡ standby)
        × (is_session_ready env.session ≡ true)
        × (env.answer ≡ true)
        × ((start code p env).0.state ≡ started)
  unfolding start start_stream call_port condwait_state
  start_reports p env h = ground arith

  success-starts :
      (p : Port) (b : Bool)
      → in_use code p ≡ true
      → p.state ≡ starting
      → deliver code p (control_result p.cookie b success) ≡ record p { state = started }
  unfolding deliver control_result_handler after_result
  success-starts p b used starts = ground (arith, ==_iff p.cookie p.cookie)

  wait_for-done :
      (p : Port) (ws : List (List Event))
      → p.state ≡ started
      → wait_for code starting p ws ≡ (p, true, concat ws)
  unfolding wait_for concat
  wait_for-done p [] plays = ground arith
  wait_for-done p (w ∷ ws) plays = ground arith

  -- A start on a port in standby that the stack accepts and answers with SUCCESS at the first
  -- wake-up returns true, with the port started.
  pub start_success :
      (p : Port) (env : Env) (b : Bool) (later : List (List Event))
      → in_use code p ≡ true
      → p.state ≡ standby
      → is_session_ready env.session ≡ true
      → env.answer ≡ true
      → env.during ≡ []
      → env.wakes ≡ (control_result p.cookie b success ∷ []) ∷ later
      → start code p env ≡ (record p { state = started }, true, concat later)
  unfolding start start_stream call_port condwait_state wait_for deliver_all in_use
  start_success p env b later used idle ready answers quiet comes = ground (
    arith,
    success-starts (record p { state = starting }) b used refl,
    wait_for-done (record p { state = started }) later refl,
  )

  resume-fails :
      (out : StreamOut) (env : Env)
      → in_use code out.port ≡ true
      → out.port.state ≡ standby
      → is_session_ready env.session && env.answer ≡ false
      → env.during ≡ []
      → out_resume code out env
        ≡ (record out { port = record out.port { state = starting } }, eio, concat env.wakes)
  unfolding out_resume start start_stream call_port deliver_all
  resume-fails out env used idle refused quiet = ground arith

  blocked :
      (out : StreamOut) (env : Env)
      → out.port.state ≡ starting
      → ((out_standby code out env).1 ≡ ebusy)
        × ((out_pause code out env).1 ≡ ebusy)
        × ((out_resume code out env).1 ≡ ebusy)
  unfolding out_resume out_standby out_pause
  blocked out env starts = ground arith

  -- When the session is not ready or the stack refuses a start, and no callback comes, `out_resume`
  -- returns -EIO and leaves the port in STARTING: from there `out_standby`, `out_pause` and
  -- `out_resume` return -EBUSY, whatever the stack would answer.
  pub failed_start_blocks :
      (out : StreamOut) (env later : Env)
      → in_use code out.port ≡ true
      → out.port.state ≡ standby
      → is_session_ready env.session && env.answer ≡ false
      → env.during ≡ []
      → let (after, retval, rest) = out_resume code out env in
        (retval ≡ eio)
        × (after.port.state ≡ starting)
        × ((out_standby code after later).1 ≡ ebusy)
        × ((out_pause code after later).1 ≡ ebusy)
        × ((out_resume code after later).1 ≡ ebusy)
  failed_start_blocks out env later used idle refused quiet =
      let after : StreamOut = record out { port = record out.port { state = starting } } in
      ground (arith, resume-fails out env used idle refused quiet, blocked after later refl)

  -- Closing an output stream whose port is in use leaves the port disabled and out of use, and takes
  -- its callbacks from the session.
  pub close_lem :
      (out : StreamOut) (s : Session)
      → in_use code out.port ≡ true
      → let (p, after) = adev_close_output_stream code out s in
        (p.state ≡ disabled)
        × (in_use code p ≡ false)
        × (after ≡ unregister_status_cback s out.port.cookie)
  unfolding adev_close_output_stream close_port stop tear_down in_use
  close_lem out s used = ground arith
