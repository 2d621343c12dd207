-- ===== src/Session/State.antt =====
-- BluetoothAudioSession.cpp: the methods of a session. A method that takes the session's lock runs
-- without interruption; it returns the new session, the callbacks that it made, and its result.
use device_phh_treble_doze.Base.{
  ℕ, Bool, true, false, not, ◌&&◌, ◌||◌, List, [], ◌∷◌, ◌++◌, Option, none, some, if◌then◌else◌,
}
use device_phh_treble_doze.Session.Types.{
  SessionType, le_audio_hardware_offload_encoding, le_audio_broadcast_hardware_offload_encoding,
  hfp_hardware_offload, a2dp_hardware_offload_encoding, ConfigTag, pcm_config, a2dp_config,
  le_audio_config, le_audio_broadcast_config, hfp_config, a2dp, AudioConfiguration, LatencyMode,
  low_latency, dynamic_spatial_audio_software, dynamic_spatial_audio_hardware, DataMq,
  PortStatusCallbacks, BluetoothAudioStatus, Event, session_changed, audio_configuration_changed,
  control_result, low_latency_mode_allowed, Session, is_offload, is_offload_a2dp,
  is_offload_le_audio_unicast, is_software, is_a2dp, tag_eqb,
}

unfoldable pub new_session : SessionType → Session
new_session t = record {
  session_type = t;
  stack_iface = none;
  data_mq = none;
  audio_config = none;
  latency_modes = [];
  low_latency_allowed = true;
  observers = [];
}

abbrev pub is_set {ℓ} : {A : Type ℓ} → Option A → Bool
is_set none = false
is_set (some a) = true

abbrev pub mq_valid : Option DataMq → Bool
mq_valid none = false
mq_valid (some q) = q.valid

unfoldable pub is_session_ready : Session → Bool
is_session_ready s =
    is_set s.stack_iface
    && ((is_offload s.session_type || mq_valid s.data_mq) && is_set s.audio_config)

-- `none` is the null descriptor.
unfoldable pub update_data_path : Session → Option DataMq → Session × Bool
update_data_path s none = (record s { data_mq = none }, true)
update_data_path s (some q) =
    if q.valid then (record s { data_mq = some q }, true) else (record s { data_mq = none }, false)

abbrev pub is_broadcast_offload : SessionType → Bool
is_broadcast_offload le_audio_broadcast_hardware_offload_encoding = true
is_broadcast_offload _ = false

abbrev pub is_offload_hfp : SessionType → Bool
is_offload_hfp hfp_hardware_offload = true
is_offload_hfp _ = false

-- The five conditions of `UpdateAudioConfig`.
unfoldable pub accepts_config : SessionType → ConfigTag → Bool
accepts_config t tag =
    (is_software t && tag_eqb tag pcm_config)
    || ((is_offload_a2dp t && (tag_eqb tag a2dp || tag_eqb tag a2dp_config))
        || ((is_offload_hfp t && tag_eqb tag hfp_config)
            || ((is_offload_le_audio_unicast t && tag_eqb tag le_audio_config)
                || (is_broadcast_offload t && tag_eqb tag le_audio_broadcast_config))))

unfoldable pub update_audio_config : Session → AudioConfiguration → Session × Bool
update_audio_config s config =
    if accepts_config s.session_type config.tag
    then (record s { audio_config = some config }, true)
    else (s, false)

-- A callback to each observer, in the order of the map.
unfoldable pub notify :
    (ℕ → PortStatusCallbacks → List Event) → List (ℕ × PortStatusCallbacks) → List Event
notify call [] = []
notify call ((cookie, cb) ∷ obs) = call cookie cb ++ notify call obs

unfoldable pub report_session_status : Session → List Event
report_session_status s = notify (λ cookie _. session_changed cookie ∷ []) s.observers

unfoldable pub on_session_started :
    Session
    → Option ℕ
    → Option DataMq
    → AudioConfiguration
    → List LatencyMode
    → Session × List Event
on_session_started s none mq config modes = (s, [])
on_session_started s (some iface) mq config modes =
    let (s1, config_ok) = update_audio_config s config in
    let (s2, path_ok) = update_data_path s1 mq in
    if not config_ok
    then (s1, [])
    else if not path_ok
    then (record s2 { audio_config = none }, [])
    else let s3 : Session = record s2 { stack_iface = some iface; latency_modes = modes } in
      (s3, report_session_status s3)

unfoldable pub on_session_ended : Session → Session × List Event
on_session_ended s =
    let toggled = is_session_ready s in
    let (s1, _) = update_data_path (record s { audio_config = none; stack_iface = none }) none in
    (s1, if toggled then report_session_status s1 else [])

-- The configuration of a session that is not ready.
unfoldable pub default_tag : SessionType → ConfigTag
default_tag t =
    if is_offload_a2dp t
    then a2dp_config
    else if is_offload_hfp t
    then hfp_config
    else if is_offload_le_audio_unicast t
    then le_audio_config
    else if is_broadcast_offload t
    then le_audio_broadcast_config
    else pcm_config

abbrev pub or_default : Option AudioConfiguration → ConfigTag → AudioConfiguration
or_default (some config) tag = config
or_default none tag = record { tag = tag; content = 0 }

unfoldable pub get_audio_config : Session → AudioConfiguration
get_audio_config s =
    if is_session_ready s
    then or_default s.audio_config (default_tag s.session_type)
    else record { tag = default_tag s.session_type; content = 0 }

unfoldable pub report_audio_config_changed : Session → AudioConfiguration → Session × List Event
report_audio_config_changed s config =
    if not (is_offload_le_audio_unicast s.session_type)
    then (s, [])
    else if not (tag_eqb config.tag le_audio_config)
    then (s, [])
    else (
      record s { audio_config = some config },
      notify
          (λ cookie cb.
            if cb.has_audio_configuration_changed_cb
            then audio_configuration_changed cookie ∷ []
            else [])
          s.observers,
    )

unfoldable pub report_control_status : Session → Bool → BluetoothAudioStatus → List Event
report_control_status s start status =
    notify (λ cookie _. control_result cookie start status ∷ []) s.observers

abbrev pub is_low_latency : LatencyMode → Bool
is_low_latency low_latency = true
is_low_latency _ = false

-- `std::find` of LOW_LATENCY.
unfoldable pub has_low_latency : List LatencyMode → Bool
has_low_latency [] = false
has_low_latency (m ∷ ms) = is_low_latency m || has_low_latency ms

abbrev pub is_a2dp_offload_encoding : SessionType → Bool
is_a2dp_offload_encoding a2dp_hardware_offload_encoding = true
is_a2dp_offload_encoding _ = false

unfoldable pub report_low_latency_mode_allowed_changed : Session → Bool → Session × List Event
report_low_latency_mode_allowed_changed s allowed =
    if not (is_a2dp_offload_encoding s.session_type) then (s, []) else (
      record s {
        low_latency_allowed = allowed;
        latency_modes =
            if allowed && not (has_low_latency s.latency_modes)
            then s.latency_modes ++ low_latency ∷ []
            else s.latency_modes;
      },
      notify
          (λ cookie cb.
            if cb.has_low_latency_mode_allowed_cb
            then low_latency_mode_allowed cookie allowed ∷ []
            else [])
          s.observers,
    )

-- The stream calls: what the port answers (`isOk()`) is an argument, and the first part of the
-- result says whether the port was called.
unfoldable pub call_port : Session → Bool → Bool × Bool
call_port s answer = if is_session_ready s then (true, answer) else (false, false)

unfoldable pub start_stream : Session → Bool → Bool × Bool
start_stream s answer = call_port s answer

unfoldable pub suspend_stream : Session → Bool → Bool × Bool
suspend_stream s answer = call_port s answer

unfoldable pub stop_stream : Session → Bool → Bool
stop_stream s answer = (call_port s answer).0

unfoldable pub set_latency_mode : Session → Bool → Bool
set_latency_mode s answer = (call_port s answer).0

-- `retval` is never assigned.
unfoldable pub get_presentation_position : Session → Bool → Bool × Bool
get_presentation_position s answer =
    let retval = false in
    if is_session_ready s then (true, if answer then retval else false) else (false, false)

unfoldable pub update_source_metadata : Session → Bool → Bool × Bool
update_source_metadata s answer =
    if is_session_ready s && is_a2dp s.session_type then (false, false) else call_port s answer

unfoldable pub update_sink_metadata : Session → Bool → Bool × Bool
update_sink_metadata s answer =
    if is_session_ready s && is_a2dp s.session_type then (false, false) else call_port s answer

abbrev pub is_le_audio_offload_encoding : SessionType → Bool
is_le_audio_offload_encoding le_audio_hardware_offload_encoding = true
is_le_audio_offload_encoding _ = false

abbrev pub is_dynamic_spatial_audio : LatencyMode → Bool
is_dynamic_spatial_audio dynamic_spatial_audio_software = true
is_dynamic_spatial_audio dynamic_spatial_audio_hardware = true
is_dynamic_spatial_audio _ = false

-- The loop for the encoding session of LE audio offload, and that of the other sessions.
unfoldable pub le_modes : List LatencyMode → List LatencyMode
le_modes [] = []
le_modes (m ∷ ms) = if is_low_latency m then le_modes ms else m ∷ le_modes ms

unfoldable pub allowed_modes : Bool → List LatencyMode → List LatencyMode
allowed_modes allowed [] = []
allowed_modes allowed (m ∷ ms) =
    let rest = allowed_modes allowed ms in
    if not allowed && is_low_latency m
    then rest
    else if is_dynamic_spatial_audio m
    then rest
    else m ∷ rest

unfoldable pub get_supported_latency_modes : Session → List LatencyMode
get_supported_latency_modes s =
    if not (is_session_ready s)
    then []
    else if is_le_audio_offload_encoding s.session_type
    then le_modes s.latency_modes
    else allowed_modes s.low_latency_allowed s.latency_modes
