-- ===== src/Middleware/Configs.antt =====
-- The conversions of LE audio configurations and of whole configurations in
-- HidlToAidlMiddleware.cpp, and `GetAudioConfig` of 2.1.
use Prim.Native.Nat.{bit_or}
use device_phh_treble_doze.Base.{
  ℕ, ℤ, pos, Bool, true, false, not, List, [], ◌∷◌, Option, none, some, int_eqb, if◌then◌else◌,
}
use device_phh_treble_doze.Codecs.Software.{PcmConfiguration}
use device_phh_treble_doze.Session.Types.{
  Session, pcm_config, a2dp_config, le_audio_config, le_audio_broadcast_config, hfp_config, a2dp,
  AudioConfiguration,
}
use device_phh_treble_doze.Session.State.{get_audio_config}
use device_phh_treble_doze.Hw.Config.{to_u32}
use device_phh_treble_doze.Middleware.Convert.{
  SampleRate, rate_unknown, to_hidl_sample_rate, BitsPerSample, bits_unknown,
  to_hidl_bits_per_sample, PcmParameters21, to_hidl_pcm_config_2_1,
}

pub record Lc3Configuration : Type 0 where
  pub pcm_bit_depth : ℤ
  pub sampling_frequency_hz : ℤ
  pub frame_duration_us : ℤ
  pub octets_per_frame : ℤ
  pub blocks_per_sdu : ℤ

-- `duration_10000us` is what a new `Lc3Parameters` holds.
pub data Lc3FrameDuration : Type 0 where
  duration_10000us duration_7500us : Lc3FrameDuration

pub record Lc3Parameters : Type 0 where
  pub pcm_bit_depth : BitsPerSample
  pub sampling_frequency : SampleRate
  pub frame_duration : Lc3FrameDuration
  pub octets_per_frame : ℕ
  pub blocks_per_sdu : ℕ

abbrev pub default_lc3 : Lc3Parameters
default_lc3 = record {
  pcm_bit_depth = bits_unknown;
  sampling_frequency = rate_unknown;
  frame_duration = duration_10000us;
  octets_per_frame = 0;
  blocks_per_sdu = 0;
}

-- The tests are of the sampling frequency.
unfoldable pub to_hidl_lc3_config_2_1 : Lc3Configuration → Lc3Parameters
to_hidl_lc3_config_2_1 c = record {
  pcm_bit_depth = to_hidl_bits_per_sample c.pcm_bit_depth;
  sampling_frequency = to_hidl_sample_rate c.sampling_frequency_hz;
  frame_duration =
      if int_eqb c.sampling_frequency_hz (pos 10000)
      then duration_10000us
      else if int_eqb c.sampling_frequency_hz (pos 7500)
      then duration_7500us
      else default_lc3.frame_duration;
  octets_per_frame = to_u32 c.octets_per_frame;
  blocks_per_sdu = to_u32 c.blocks_per_sdu;
}

-- The union `LeAudioCodecConfiguration`. `get` of a member that is not set does not return.
pub data LeAudioCodec : Type 0 where
  lc3_config : Lc3Configuration → LeAudioCodec
  vendor_config : ℕ → LeAudioCodec

unfoldable pub get_lc3 : LeAudioCodec → Option Lc3Configuration
get_lc3 (lc3_config c) = some c
get_lc3 (vendor_config n) = none

abbrev pub is_lc3 : LeAudioCodec → Bool
is_lc3 (lc3_config c) = true
is_lc3 (vendor_config n) = false

pub record Lc3CodecConfig : Type 0 where
  pub lc3 : Lc3Parameters
  pub audio_channel_allocation : ℕ

unfoldable pub allocation_of : List ℕ → ℕ → ℕ
allocation_of [] acc = acc
allocation_of (a ∷ allocations) acc = allocation_of allocations (bit_or acc a)

pub record LeAudioConfiguration : Type 0 where
  pub codec : LeAudioCodec
  pub allocations : List ℕ

-- `none` is the end of the process: LOG(FATAL), or a `get` of another member.
unfoldable pub to_hidl_leaudio_config_2_1 : LeAudioConfiguration → Option Lc3CodecConfig
to_hidl_leaudio_config_2_1 c = if is_lc3 c.codec then none else (elim (get_lc3 c.codec) [
  | none ↦ none
  | some lc3 ↦ some (record {
    lc3 = to_hidl_lc3_config_2_1 lc3;
    audio_channel_allocation = allocation_of c.allocations 0;
  })
])

abbrev pub allocations_of : List (LeAudioCodec × ℕ) → List ℕ
allocations_of [] = []
allocations_of ((codec, a) ∷ streams) = a ∷ allocations_of streams

-- The streams of a broadcast, each with its codec and its allocation.
unfoldable pub to_hidl_leaudio_broadcast_config_2_1 :
    List (LeAudioCodec × ℕ) → Option Lc3CodecConfig
to_hidl_leaudio_broadcast_config_2_1 [] =
    some (record { lc3 = default_lc3; audio_channel_allocation = 0 })
to_hidl_leaudio_broadcast_config_2_1 ((codec, a) ∷ streams) =
    if not (is_lc3 codec) then none else (elim (get_lc3 codec) [
      | none ↦ none
      | some lc3 ↦ some (record {
        lc3 = to_hidl_lc3_config_2_1 lc3;
        audio_channel_allocation = allocation_of (a ∷ allocations_of streams) 0;
      })
    ])

-- What the content of a configuration means, by its tag; the codec configurations of A2DP are
-- passed on as they are.
pub record Meanings : Type 0 where
  pub pcm_of : ℕ → PcmConfiguration
  pub le_of : ℕ → LeAudioConfiguration
  pub broadcast_of : ℕ → List (LeAudioCodec × ℕ)

pub data HidlAudioConfig : Type 0 where
  hidl_default : HidlAudioConfig
  hidl_pcm : PcmParameters21 → HidlAudioConfig
  hidl_codec : ℕ → HidlAudioConfig
  hidl_le_audio : Lc3CodecConfig → HidlAudioConfig

abbrev pub le_audio_or : Option Lc3CodecConfig → Option HidlAudioConfig
le_audio_or none = none
le_audio_or (some c) = some (hidl_le_audio c)

unfoldable pub to_hidl_audio_config_2_1 : Meanings → AudioConfiguration → Option HidlAudioConfig
to_hidl_audio_config_2_1 k config = elim config.tag [
  | pcm_config ↦ some (hidl_pcm (to_hidl_pcm_config_2_1 (k.pcm_of config.content)))
  | a2dp_config ↦ some (hidl_codec config.content)
  | a2dp ↦ some hidl_default
  | le_audio_config ↦ le_audio_or (to_hidl_leaudio_config_2_1 (k.le_of config.content))
  | le_audio_broadcast_config ↦
      le_audio_or (to_hidl_leaudio_broadcast_config_2_1 (k.broadcast_of config.content))
  | hfp_config ↦ none
]

-- `GetAudioConfig` of 2.1.
unfoldable pub get_audio_config_2_1 : Meanings → Session → Option HidlAudioConfig
get_audio_config_2_1 k s = to_hidl_audio_config_2_1 k (get_audio_config s)
