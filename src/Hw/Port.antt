-- ===== src/Hw/Port.antt =====
-- `BluetoothAudioPortAidl` of bluetooth/audio/hw/device_port_proxy.cc: the state of a port, the
-- callbacks of the session, and the calls of the stream. A call that waits lets callbacks in; it
-- returns the new port, its result, and the callbacks that have not come when it returns.
use device_phh_treble_doze.Base.{
  ℕ, Bool, true, false, not, ◌&&◌, List, [], ◌∷◌, ◌++◌, ◌==◌, if◌then◌else◌,
}
use device_phh_treble_doze.Session.Types.{
  SessionType, unknown, a2dp_software_encoding, hearing_aid_software_encoding,
  le_audio_software_encoding, le_audio_software_decoding, le_audio_broadcast_software_encoding,
  PortStatusCallbacks, BluetoothAudioStatus, success, reconfiguration, Event, session_changed,
  control_result, Session,
}
use device_phh_treble_doze.Session.State.{is_session_ready, start_stream, suspend_stream}
use device_phh_treble_doze.Session.Cookies.{
  cookie_undefined, register_status_cback, unregister_status_cback,
}
use device_phh_treble_doze.Hw.Types.{
  BluetoothStreamState, disabled, standby, starting, started, suspending, state_eqb, AudioDevice,
  out_bluetooth_a2dp, out_bluetooth_a2dp_headphones, out_bluetooth_a2dp_speaker, out_hearing_aid,
  out_ble_headset, out_ble_speaker, in_ble_headset, out_ble_broadcast, Port, Env,
}

-- The switch of `ControlResultHandler`.
unfoldable pub after_result : BluetoothStreamState → BluetoothAudioStatus → BluetoothStreamState
after_result started reconfiguration = standby
after_result started success = standby
after_result started _ = started
after_result starting success = started
after_result starting _ = standby
after_result suspending success = standby
after_result suspending _ = disabled
after_result state _ = state

-- The session type that `init_session_type` takes for a device; the other devices keep the type.
unfoldable pub device_session_type : AudioDevice → SessionType → SessionType × Bool
device_session_type out_bluetooth_a2dp t = (a2dp_software_encoding, true)
device_session_type out_bluetooth_a2dp_headphones t = (a2dp_software_encoding, true)
device_session_type out_bluetooth_a2dp_speaker t = (a2dp_software_encoding, true)
device_session_type out_hearing_aid t = (hearing_aid_software_encoding, true)
device_session_type out_ble_headset t = (le_audio_software_encoding, true)
device_session_type out_ble_speaker t = (le_audio_software_encoding, true)
device_session_type in_ble_headset t = (le_audio_software_decoding, true)
device_session_type out_ble_broadcast t = (le_audio_broadcast_software_encoding, true)
device_session_type _ t = (t, false)

unfoldable pub init_session_type : (SessionType → Session) → Port → AudioDevice → Port × Bool
init_session_type sessions p device =
    let (t, known) = device_session_type device p.session_type in
    (record p { session_type = t }, known && is_session_ready (sessions t))

-- The callbacks that the port registers.
abbrev pub port_callbacks : PortStatusCallbacks
port_callbacks = record {
  has_audio_configuration_changed_cb = false;
  has_low_latency_mode_allowed_cb = false;
}

unfoldable pub concat : List (List Event) → List Event
concat [] = []
concat (w ∷ ws) = w ++ concat ws

module _ (code : SessionType → ℕ) where
  unfoldable pub new_port : Port
  new_port = record {
    cookie = cookie_undefined code;
    state = disabled;
    session_type = unknown;
    is_stereo_to_mono = false;
  }

  unfoldable pub in_use : Port → Bool
  in_use p = not (p.cookie == cookie_undefined code)

  unfoldable pub control_result_handler : Port → BluetoothAudioStatus → Port
  control_result_handler p status =
      if not (in_use p) then p else record p { state = after_result p.state status }

  unfoldable pub session_changed_handler : Port → Port
  session_changed_handler p = if not (in_use p) then p else record p { state = disabled }

  -- The two callbacks that `SetUp` registers; it leaves the others out.
  unfoldable pub deliver : Port → Event → Port
  deliver p (control_result cookie start status) =
      if not (in_use p)
      then p
      else if not (p.cookie == cookie)
      then p
      else control_result_handler p status
  deliver p (session_changed cookie) =
      if not (in_use p)
      then p
      else if not (p.cookie == cookie)
      then p
      else session_changed_handler p
  deliver p _ = p

  unfoldable pub deliver_all : Port → List Event → Port
  deliver_all p [] = p
  deliver_all p (e ∷ es) = deliver_all (deliver p e) es

  -- `SetUp`: the session of the port's type with the port's callbacks is the second part.
  unfoldable pub set_up : (SessionType → Session) → Port → AudioDevice → Port × Session × Bool
  set_up sessions p device =
      let (q, ready) = init_session_type sessions p device in
      let (s, cookie) = register_status_cback code (sessions q.session_type) port_callbacks in
      if not ready
      then (q, sessions q.session_type, false)
      else (record q { state = standby; cookie = cookie }, s, not (cookie == cookie_undefined code))

  unfoldable pub tear_down : Port → Session → Port × Session
  tear_down p s =
      if not (in_use p)
      then (p, s)
      else (record p { cookie = cookie_undefined code }, unregister_status_cback s p.cookie)

  -- `wait_for` with the predicate that the state is no longer `state`.
  unfoldable pub wait_for :
      BluetoothStreamState → Port → List (List Event) → Port × Bool × List Event
  wait_for state p [] = (p, not (state_eqb p.state state), [])
  wait_for state p (w ∷ ws) = elim (state_eqb p.state state) [
    | true ↦ wait_for state (deliver_all p w) ws
    | false ↦ (p, true, concat (w ∷ ws))
  ]

  unfoldable pub condwait_state :
      Port → BluetoothStreamState → List (List Event) → Port × Bool × List Event
  condwait_state p starting wakes =
      let (q, retval, rest) = wait_for starting p wakes in
      (q, retval && state_eqb q.state started, rest)
  condwait_state p suspending wakes =
      let (q, retval, rest) = wait_for suspending p wakes in
      (q, retval && state_eqb q.state standby, rest)
  condwait_state p _ wakes = (p, false, concat wakes)

  unfoldable pub start : Port → Env → Port × Bool × List Event
  start p env =
      if not (in_use p)
      then (p, false, env.during ++ concat env.wakes)
      else if state_eqb p.state standby
      then (let q = deliver_all (record p { state = starting }) env.during in
          if (start_stream env.session env.answer).1
          then condwait_state q starting env.wakes
          else (q, false, concat env.wakes))
      else (p, false, env.during ++ concat env.wakes)

  unfoldable pub suspend : Port → Env → Port × Bool × List Event
  suspend p env =
      if not (in_use p)
      then (p, false, env.during ++ concat env.wakes)
      else if state_eqb p.state started
      then (let q = deliver_all (record p { state = suspending }) env.during in
          if (suspend_stream env.session env.answer).1
          then condwait_state q suspending env.wakes
          else (q, false, concat env.wakes))
      else (p, false, env.during ++ concat env.wakes)

  -- `Stop`: the callbacks that come meanwhile are left to come after it.
  unfoldable pub stop : Port → Port
  stop p = if not (in_use p) then p else record p { state = disabled }
