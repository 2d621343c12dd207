-- ===== src/Session/Types.antt =====
-- BluetoothAudioSession.h: the state of a session, with the types of the AIDL interface that it
-- holds. A port, a queue and the content of a configuration are opaque: they are named by numbers.
use device_phh_treble_doze.Base.{ℕ, Bool, true, false, List, Option}

pub data SessionType : Type 0 where
  unknown a2dp_software_encoding a2dp_hardware_offload_encoding : SessionType
  hearing_aid_software_encoding le_audio_software_encoding le_audio_software_decoding : SessionType
  le_audio_hardware_offload_encoding le_audio_hardware_offload_decoding : SessionType
  le_audio_broadcast_software_encoding le_audio_broadcast_hardware_offload_encoding : SessionType
  a2dp_software_decoding a2dp_hardware_offload_decoding : SessionType
  hfp_software_encoding hfp_software_decoding hfp_hardware_offload : SessionType

-- The tag of the union `AudioConfiguration`.
pub data ConfigTag : Type 0 where
  pcm_config a2dp_config le_audio_config le_audio_broadcast_config hfp_config a2dp : ConfigTag

-- The content 0 is that of a default-constructed configuration.
pub record AudioConfiguration : Type 0 where
  pub tag : ConfigTag
  pub content : ℕ

pub data LatencyMode : Type 0 where
  unknown_mode low_latency free : LatencyMode
  dynamic_spatial_audio_software dynamic_spatial_audio_hardware : LatencyMode

-- A message queue made from a descriptor, with what its `isValid()` says.
pub record DataMq : Type 0 where
  pub descriptor : ℕ
  pub valid : Bool

-- Which of the optional callbacks a client has set; `control_result_cb_` and `session_changed_cb_`
-- are called without a test.
pub record PortStatusCallbacks : Type 0 where
  pub has_audio_configuration_changed_cb : Bool
  pub has_low_latency_mode_allowed_cb : Bool

pub data BluetoothAudioStatus : Type 0 where
  unknown_status success unsupported_codec_configuration failure reconfiguration :
      BluetoothAudioStatus

-- The calls of the registered callbacks, in their order.
pub data Event : Type 0 where
  session_changed audio_configuration_changed : ℕ → Event
  control_result : ℕ → Bool → BluetoothAudioStatus → Event
  low_latency_mode_allowed : ℕ → Bool → Event

-- `observers_` is an unordered map: the order of its list is some order of the map.
pub record Session : Type 0 where
  pub session_type : SessionType
  pub stack_iface : Option ℕ
  pub data_mq : Option DataMq
  pub audio_config : Option AudioConfiguration
  pub latency_modes : List LatencyMode
  pub low_latency_allowed : Bool
  pub observers : List (ℕ × PortStatusCallbacks)

-- The sessions of a Bluetooth controller, which have no message queue.
abbrev pub is_offload : SessionType → Bool
is_offload a2dp_hardware_offload_encoding = true
is_offload le_audio_hardware_offload_encoding = true
is_offload le_audio_hardware_offload_decoding = true
is_offload le_audio_broadcast_hardware_offload_encoding = true
is_offload a2dp_hardware_offload_decoding = true
is_offload hfp_hardware_offload = true
is_offload _ = false

abbrev pub is_offload_a2dp : SessionType → Bool
is_offload_a2dp a2dp_hardware_offload_encoding = true
is_offload_a2dp a2dp_hardware_offload_decoding = true
is_offload_a2dp _ = false

abbrev pub is_offload_le_audio_unicast : SessionType → Bool
is_offload_le_audio_unicast le_audio_hardware_offload_encoding = true
is_offload_le_audio_unicast le_audio_hardware_offload_decoding = true
is_offload_le_audio_unicast _ = false

abbrev pub is_software : SessionType → Bool
is_software a2dp_software_encoding = true
is_software hearing_aid_software_encoding = true
is_software hfp_software_encoding = true
is_software hfp_software_decoding = true
is_software le_audio_software_decoding = true
is_software le_audio_software_encoding = true
is_software le_audio_broadcast_software_encoding = true
is_software a2dp_software_decoding = true
is_software _ = false

-- The types for which the metadata updates return false at once.
abbrev pub is_a2dp : SessionType → Bool
is_a2dp a2dp_software_encoding = true
is_a2dp a2dp_hardware_offload_encoding = true
is_a2dp a2dp_software_decoding = true
is_a2dp a2dp_hardware_offload_decoding = true
is_a2dp _ = false

abbrev pub tag_eqb : ConfigTag → ConfigTag → Bool
tag_eqb pcm_config pcm_config = true
tag_eqb a2dp_config a2dp_config = true
tag_eqb le_audio_config le_audio_config = true
tag_eqb le_audio_broadcast_config le_audio_broadcast_config = true
tag_eqb hfp_config hfp_config = true
tag_eqb a2dp a2dp = true
tag_eqb _ _ = false
