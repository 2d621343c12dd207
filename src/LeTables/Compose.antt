-- ===== src/LeTables/Compose.antt =====
-- The capabilities that BluetoothLeAudioCodecsProvider.cpp composes from its maps.
use device_phh_treble_doze.Base.{
  ℕ, ℤ, pos, Bool, true, false, List, [], ◌∷◌, Option, none, some, ◌==◌, if◌then◌else◌,
}
use device_phh_treble_doze.Codecs.{
  CodecType, unknown_codec, lc3, aptx_adaptive_le, aptx_adaptive_lex,
}
use device_phh_treble_doze.LeTables.Settings.{
  SettingCodec, setting_lc3, setting_aptx_adaptive_le, setting_aptx_adaptive_lex, setting_unknown,
  SettingLocation, location_mono, location_stereo, location_unknown, Scenario, Configuration,
  CodecConfiguration, StrategyConfiguration, value, has, Map, find_name,
}

-- `kStereoAudio`; `kMonoAudio` is `UNKNOWN`, like the location of any other value.
pub data AudioLocation : Type 0 where
  unknown_location stereo_audio : AudioLocation

unfoldable pub get_audio_location : SettingLocation → AudioLocation
get_audio_location location_mono = unknown_location
get_audio_location location_stereo = stereo_audio
get_audio_location location_unknown = unknown_location

unfoldable pub get_codec_type : SettingCodec → CodecType
get_codec_type setting_lc3 = lc3
get_codec_type setting_aptx_adaptive_le = aptx_adaptive_le
get_codec_type setting_aptx_adaptive_lex = aptx_adaptive_lex
get_codec_type setting_unknown = unknown_codec

-- `Lc3Capabilities`, and `AptxAdaptiveLeCapabilities`, which has the same fields. Each field of the
-- source is a list of one value.
pub record CodecCapability : Type 0 where
  pub sampling_frequency_hz : ℤ
  pub frame_duration_us : ℤ
  pub octets_per_frame : ℤ

pub record UnicastCapability : Type 0 where
  pub codec_type : CodecType
  pub supported_channel : AudioLocation
  pub device_count : ℕ
  pub channel_count_per_device : ℕ
  pub capability : CodecCapability

pub record BroadcastCapability : Type 0 where
  pub codec_type : CodecType
  pub supported_channel : AudioLocation
  pub channel_count_per_stream : ℕ
  pub capability : CodecCapability

-- A capability of no known codec has nothing else: it is `none`.
unfoldable pub compose_lc3_capability : CodecConfiguration → CodecCapability
compose_lc3_capability c = record {
  sampling_frequency_hz = value (pos 0) c.sampling_frequency;
  frame_duration_us = value (pos 0) c.frame_duration_us;
  octets_per_frame = value (pos 0) c.octets_per_codec_frame;
}

pub record Maps : Type 0 where
  pub configurations : Map Configuration
  pub codec_configurations : Map CodecConfiguration
  pub strategy_configurations : Map StrategyConfiguration

infixl 1 ◌>>=◌
abbrev pub ◌>>=◌ {ℓ} : {A B : Type ℓ} → Option A → (A → Option B) → Option B
none >>= f = none
some a >>= f = f a

-- The three `find`s of a direction. The name "invalid" is 0.
unfoldable pub find_parts : Maps → ℕ → Option (CodecConfiguration × StrategyConfiguration)
find_parts maps direction = if direction == 0 then none else do
  configuration ← find_name maps.configurations direction
  codec ← find_name maps.codec_configurations (value 0 configuration.codec_configuration)
  strategy ← find_name maps.strategy_configurations (value 0 configuration.strategy_configuration)
  some (codec, strategy)

unfoldable pub compose_unicast_capability :
    CodecType → CodecConfiguration → StrategyConfiguration → UnicastCapability
compose_unicast_capability type c s = record {
  codec_type = type;
  supported_channel = get_audio_location (value location_unknown s.audio_location);
  device_count = value 0 s.connected_device;
  channel_count_per_device = value 0 s.channel_count;
  capability = compose_lc3_capability c;
}

unfoldable pub unicast_of :
    CodecType → CodecConfiguration → StrategyConfiguration → Option UnicastCapability
unicast_of lc3 c s = some (compose_unicast_capability lc3 c s)
unicast_of aptx_adaptive_le c s = some (compose_unicast_capability aptx_adaptive_le c s)
unicast_of aptx_adaptive_lex c s = some (compose_unicast_capability aptx_adaptive_lex c s)
unicast_of _ c s = none

unfoldable pub get_unicast_capability : Maps → ℕ → Option UnicastCapability
get_unicast_capability maps direction = elim (find_parts maps direction) [
  | none ↦ none
  | some (c, s) ↦ unicast_of (get_codec_type (value setting_unknown c.codec)) c s
]

unfoldable pub broadcast_of :
    CodecType → CodecConfiguration → StrategyConfiguration → Option BroadcastCapability
broadcast_of lc3 c s = some (record {
  codec_type = lc3;
  supported_channel = get_audio_location (value location_unknown s.audio_location);
  channel_count_per_stream = value 0 s.channel_count;
  capability = compose_lc3_capability c;
})
broadcast_of _ c s = none

unfoldable pub get_broadcast_capability : Maps → ℕ → Option BroadcastCapability
get_broadcast_capability maps direction = elim (find_parts maps direction) [
  | none ↦ none
  | some (c, s) ↦ broadcast_of (get_codec_type (value setting_unknown c.codec)) c s
]

pub record CapabilitiesSetting : Type 0 where
  pub unicast_encode : Option UnicastCapability
  pub unicast_decode : Option UnicastCapability
  pub broadcast : Option BroadcastCapability

-- The capabilities of one scenario; without an encoding or a decoding its name is empty, which is
-- not the case of the scenarios that are kept.
unfoldable pub capabilities_of : Maps → Scenario → CapabilitiesSetting
capabilities_of maps s = record {
  unicast_encode = get_unicast_capability maps (value 0 s.encode);
  unicast_decode = get_unicast_capability maps (value 0 s.decode);
  broadcast = elim s.broadcast [ none ↦ none | some name ↦ get_broadcast_capability maps name ];
}

abbrev pub is_empty : CapabilitiesSetting → Bool
is_empty c =
    if has c.unicast_encode
    then false
    else if has c.unicast_decode
    then false
    else if has c.broadcast
    then false
    else true

unfoldable pub compose_le_audio_codec_capabilities : Maps → List Scenario → List CapabilitiesSetting
compose_le_audio_codec_capabilities maps [] = []
compose_le_audio_codec_capabilities maps (s ∷ ss) =
    let rest = compose_le_audio_codec_capabilities maps ss in
    let c = capabilities_of maps s in if is_empty c then rest else c ∷ rest
