-- ===== src/Provider.antt =====
-- The providers of bluetooth/audio/hal: the base class of BluetoothAudioProvider.cpp, and the classes
-- A2dpOffloadAudioProvider, A2dpSoftwareAudioProvider, HearingAidAudioProvider,
-- HfpOffloadAudioProvider and LeAudioOffloadAudioProvider that override `startSession` and `onSessionReady`. A provider acts on the
-- session of its type. A method returns the provider, the session, the callbacks and its status.
pub mod Laws
pub mod Trace
pub mod Factory
pub mod Opened
use device_phh_treble_doze.Base.{
  ℕ, Bool, true, false, not, ◌||◌, ◌&&◌, List, [], Option, none, some, if◌then◌else◌,
}
use device_phh_treble_doze.A2dp.Codec.{CodecId, A2dpStatus, ok}
use device_phh_treble_doze.A2dp.Codec.Parsing.{status}
use device_phh_treble_doze.A2dp.Factory.{parse, get_codec}
use device_phh_treble_doze.Session.Types.{
  SessionType, a2dp_software_encoding, a2dp_hardware_offload_encoding, a2dp_software_decoding,
  a2dp_hardware_offload_decoding, hearing_aid_software_encoding, hfp_hardware_offload,
  le_audio_hardware_offload_encoding, le_audio_hardware_offload_decoding,
  le_audio_broadcast_hardware_offload_encoding, ConfigTag, pcm_config, a2dp_config, hfp_config,
  le_audio_config, le_audio_broadcast_config, a2dp, AudioConfiguration, LatencyMode, DataMq,
  BluetoothAudioStatus, Event, Session, tag_eqb,
}
use device_phh_treble_doze.Session.State.{
  is_set, mq_valid, on_session_started, on_session_ended, report_control_status,
  report_audio_config_changed, report_low_latency_mode_allowed_changed,
}

pub data ScopedStatus : Type 0 where
  status_ok illegal_argument : ScopedStatus

-- The class of the object, with the session type that its constructor sets.
pub data ProviderClass : Type 0 where
  a2dp_offload_encoding a2dp_offload_decoding : ProviderClass
  a2dp_software_encoder a2dp_software_decoder hearing_aid hfp_offload : ProviderClass
  le_audio_offload_output le_audio_offload_input le_audio_offload_broadcast : ProviderClass

abbrev pub type_of : ProviderClass → SessionType
type_of a2dp_offload_encoding = a2dp_hardware_offload_encoding
type_of a2dp_offload_decoding = a2dp_hardware_offload_decoding
type_of a2dp_software_encoder = a2dp_software_encoding
type_of a2dp_software_decoder = a2dp_software_decoding
type_of hearing_aid = hearing_aid_software_encoding
type_of hfp_offload = hfp_hardware_offload
type_of le_audio_offload_output = le_audio_hardware_offload_encoding
type_of le_audio_offload_input = le_audio_hardware_offload_decoding
type_of le_audio_offload_broadcast = le_audio_broadcast_hardware_offload_encoding

-- `data_mq` is the queue that the constructor of a software provider makes.
pub record Provider : Type 0 where
  pub class : ProviderClass
  pub stack_iface : Option ℕ
  pub audio_config : Option AudioConfiguration
  pub latency_modes : List LatencyMode
  pub data_mq : Option DataMq

pub record Outcome : Type 0 where
  pub provider : Provider
  pub session : Session
  pub events : List Event
  pub answer : ScopedStatus

-- What an opaque content holds: the codec and the configuration of an `a2dp`, and the answers of
-- `IsSoftwarePcmConfigurationValid` and `IsOffloadCodecConfigurationValid`.
pub record Contents : Type 0 where
  pub codec_of : ℕ → CodecId
  pub configuration_of : ℕ → List ℕ
  pub is_software_pcm_configuration_valid : ℕ → Bool
  pub is_offload_codec_configuration_valid : SessionType → ℕ → Bool

abbrev is_status_ok : A2dpStatus → Bool
is_status_ok ok = true
is_status_ok _ = false

-- `codec == nullptr`, or the status of `ParseConfiguration`.
unfoldable pub parses : CodecId → List ℕ → Bool
parses id configuration = elim (get_codec id) [
  | none ↦ false
  | some codec ↦ is_status_ok (status (parse codec configuration))
]

unfoldable pub a2dp_offload_accepts : Contents → SessionType → AudioConfiguration → Bool
a2dp_offload_accepts k t config =
    if tag_eqb config.tag a2dp
    then parses (k.codec_of config.content) (k.configuration_of config.content)
    else tag_eqb config.tag a2dp_config && k.is_offload_codec_configuration_valid t config.content

unfoldable pub software_accepts : Contents → AudioConfiguration → Bool
software_accepts k config =
    tag_eqb config.tag pcm_config && k.is_software_pcm_configuration_valid config.content

-- The checks that `startSession` of the class makes before it calls the base class.
unfoldable pub accepts : Contents → ProviderClass → AudioConfiguration → Bool
accepts k a2dp_offload_encoding config =
    a2dp_offload_accepts k a2dp_hardware_offload_encoding config
accepts k a2dp_offload_decoding config =
    a2dp_offload_accepts k a2dp_hardware_offload_decoding config
accepts k a2dp_software_encoder config = software_accepts k config
accepts k a2dp_software_decoder config = software_accepts k config
accepts k hearing_aid config = software_accepts k config
accepts k hfp_offload config = tag_eqb config.tag hfp_config
accepts k le_audio_offload_output config = tag_eqb config.tag le_audio_config
accepts k le_audio_offload_input config = tag_eqb config.tag le_audio_config
accepts k le_audio_offload_broadcast config = tag_eqb config.tag le_audio_broadcast_config

abbrev pub has_queue : ProviderClass → Bool
has_queue a2dp_software_encoder = true
has_queue a2dp_software_decoder = true
has_queue hearing_aid = true
has_queue _ = false

-- `onSessionReady`, whose status the base class drops.
unfoldable pub on_session_ready : Provider → Session → AudioConfiguration → Session × List Event
on_session_ready p s config =
    if has_queue p.class
    then (if mq_valid p.data_mq
        then on_session_started s p.stack_iface p.data_mq config p.latency_modes
        else (s, []))
    else on_session_started s p.stack_iface none config p.latency_modes

abbrev pub unchanged : Provider → Session → ScopedStatus → Outcome
unchanged p s answer = record { provider = p; session = s; events = []; answer = answer }

-- `BluetoothAudioProvider::startSession`.
unfoldable pub base_start_session :
    Provider → Session → Option ℕ → AudioConfiguration → List LatencyMode → Outcome
base_start_session p s none config modes = unchanged p s illegal_argument
base_start_session p s (some host) config modes =
    let q : Provider = record p {
      latency_modes = modes;
      audio_config = some config;
      stack_iface = some host;
    } in
    let (s', events) = on_session_ready q s config in
    record { provider = q; session = s'; events = events; answer = status_ok }

unfoldable pub start_session :
    Contents → Provider → Session → Option ℕ → AudioConfiguration → List LatencyMode → Outcome
start_session k p s host config modes =
    if accepts k p.class config
    then base_start_session p s host config modes
    else unchanged p s illegal_argument

unfoldable pub end_session : Provider → Session → Outcome
end_session p s =
    let (s', events) : Session × List Event =
      if is_set p.stack_iface then on_session_ended s else (s, []) in
    record {
      provider = record p { stack_iface = none; audio_config = none };
      session = s';
      events = events;
      answer = status_ok;
    }

-- The death of the stack's process: the callback has the session type and no provider.
unfoldable pub binder_died : Provider → Session → Outcome
binder_died p s =
    let (s', events) = on_session_ended s in
    record { provider = p; session = s'; events = events; answer = status_ok }

unfoldable pub stream_started : Provider → Session → BluetoothAudioStatus → Outcome
stream_started p s st = record {
  provider = p;
  session = s;
  answer = status_ok;
  events = if is_set p.stack_iface then report_control_status s true st else [];
}

unfoldable pub stream_suspended : Provider → Session → BluetoothAudioStatus → Outcome
stream_suspended p s st = record {
  provider = p;
  session = s;
  answer = status_ok;
  events = if is_set p.stack_iface then report_control_status s false st else [];
}

-- The tag comparison, where both pointers are set.
unfoldable pub same_tag : Provider → AudioConfiguration → Bool
same_tag p config = elim p.audio_config [
  | none ↦ false
  | some old ↦ is_set p.stack_iface && tag_eqb config.tag old.tag
]

unfoldable pub update_audio_configuration : Provider → Session → AudioConfiguration → Outcome
update_audio_configuration p s config =
    if same_tag p config
    then (let (s', events) = report_audio_config_changed s config in
        record {
          provider = record p { audio_config = some config };
          session = s';
          events = events;
          answer = status_ok;
        })
    else unchanged p s illegal_argument

unfoldable pub set_low_latency_mode_allowed : Provider → Session → Bool → Outcome
set_low_latency_mode_allowed p s allowed =
    if is_set p.stack_iface
    then (let (s', events) = report_low_latency_mode_allowed_changed s allowed in
        record { provider = p; session = s'; events = events; answer = status_ok })
    else unchanged p s illegal_argument
