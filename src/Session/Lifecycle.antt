-- ===== src/Session/Lifecycle.antt =====
-- Starting and ending a session (BluetoothAudioSession.cpp).
use device_phh_treble_doze.Base.{
  ℕ, ◌≡◌, refl, Bool, true, false, ◌||◌, List, [], ◌∷◌, map, ap, Option, none, some, arith,
  if◌then◌else◌,
}
use device_phh_treble_doze.Session.Types.{
  AudioConfiguration, LatencyMode, DataMq, PortStatusCallbacks, Event, session_changed, Session,
  is_offload,
}
use device_phh_treble_doze.Session.State.{
  is_session_ready, mq_valid, update_data_path, accepts_config, update_audio_config, notify,
  report_session_status, on_session_started, on_session_ended,
}

-- A null descriptor, or one whose queue is valid.
abbrev pub path_ok : Option DataMq → Bool
path_ok none = true
path_ok (some q) = q.valid

-- Every observer is told once, in the order of the map.
abbrev pub tells_all : List (ℕ × PortStatusCallbacks) → List Event
tells_all = map λ o. session_changed o.0

notify-tells_all :
    (obs : List (ℕ × PortStatusCallbacks))
    → notify (λ cookie _. session_changed cookie ∷ []) obs ≡ tells_all obs
unfolding notify
notify-tells_all [] = refl
notify-tells_all ((c, cb) ∷ obs) = ap (λ es. session_changed c ∷ es) (notify-tells_all obs)

module _ (s : Session) (iface : ℕ) (mq : Option DataMq) (config : AudioConfiguration)
    (modes : List LatencyMode) where
  -- With a port, a configuration of a kind that fits the session's type, and no queue or a valid
  -- one, a start takes effect: it stores the arguments and tells all observers. The session is then
  -- ready exactly when its type is an offload type or a valid queue was given.
  pub session_start :
      accepts_config s.session_type config.tag ≡ true
      → path_ok mq ≡ true
      → let (s', events) = on_session_started s (some iface) mq config modes in
        (s'.stack_iface ≡ some iface)
        × (s'.audio_config ≡ some config)
        × (s'.data_mq ≡ mq)
        × (s'.latency_modes ≡ modes)
        × (is_session_ready s' ≡ (is_offload s.session_type || mq_valid mq))
        × (events ≡ tells_all s.observers)
  unfolding on_session_started update_audio_config update_data_path is_session_ready
      report_session_status
  session_start fits path = ground (arith, notify-tells_all s.observers)

  -- A start whose configuration does not fit the session's type changes nothing and tells nobody.
  pub session_start_refused :
      accepts_config s.session_type config.tag ≡ false
      → on_session_started s (some iface) mq config modes ≡ (s, [])
  unfolding on_session_started update_audio_config update_data_path
  session_start_refused misfit = ground arith

  -- A start whose configuration fits and whose queue is not valid leaves the session not ready, also
  -- a session that was ready before, with the port that it had, and tells nobody.
  pub session_start_fails :
      accepts_config s.session_type config.tag ≡ true
      → path_ok mq ≡ false
      → let (s', events) = on_session_started s (some iface) mq config modes in
        (is_session_ready s' ≡ false) × (s'.stack_iface ≡ s.stack_iface) × (events ≡ [])
  unfolding on_session_started update_audio_config update_data_path is_session_ready
  session_start_fails fits path = ground arith

-- After the end of a session it is not ready and holds no port, queue or configuration; its
-- observers stay, and they are told exactly when the session was ready.
pub session_end :
    (s : Session)
    → let (s', events) = on_session_ended s in
      (is_session_ready s' ≡ false)
      × (s'.stack_iface ≡ none)
      × (s'.data_mq ≡ none)
      × (s'.audio_config ≡ none)
      × (s'.observers ≡ s.observers)
      × (events ≡ (if is_session_ready s then tells_all s.observers else []))
unfolding on_session_ended update_data_path is_session_ready report_session_status
session_end s = ground (arith, notify-tells_all s.observers)
