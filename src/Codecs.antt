-- ===== src/Codecs.antt =====
-- bluetooth/audio/utils/aidl_session/BluetoothAudioCodecs.cpp: which configurations of the A2DP offload
-- codecs and of software PCM are valid. The types of the AIDL interface keep the values that the code
-- names; `other_…` is any further value. `int` and `byte` are ℤ.
pub mod Tables
pub mod Laws
pub mod Software
use device_phh_treble_doze.Base.{
  ℕ, ℤ, pos, Bool, true, false, not, ◌&&◌, ◌||◌, List, [], ◌∷◌, Option, none, some, ◌==◌, int_leb,
  int_eqb,
}
use device_phh_treble_doze.A2dp.Codec.{ChannelMode, unknown, mono, stereo, dualmono}
use device_phh_treble_doze.Session.Types.{SessionType, is_offload_a2dp}

pub data CodecType : Type 0 where
  unknown_codec sbc aac aptx aptx_hd ldac lc3 vendor : CodecType
  aptx_adaptive opus aptx_adaptive_le aptx_adaptive_lex : CodecType

pub data SbcChannelMode : Type 0 where
  sbc_mono sbc_joint_stereo : SbcChannelMode
  other_sbc_mode : ℕ → SbcChannelMode

pub data SbcAllocMethod : Type 0 where
  alloc_md_l : SbcAllocMethod
  other_method : ℕ → SbcAllocMethod

pub data AacObjectType : Type 0 where
  mpeg2_lc : AacObjectType
  other_object : ℕ → AacObjectType

pub data LdacChannelMode : Type 0 where
  ldac_dual ldac_stereo : LdacChannelMode
  other_ldac_mode : ℕ → LdacChannelMode

pub data LdacQualityIndex : Type 0 where
  high : LdacQualityIndex
  other_quality : ℕ → LdacQualityIndex

abbrev pub channel_mode_eqb : ChannelMode → ChannelMode → Bool
channel_mode_eqb unknown unknown = true
channel_mode_eqb mono mono = true
channel_mode_eqb stereo stereo = true
channel_mode_eqb dualmono dualmono = true
channel_mode_eqb _ _ = false

abbrev pub sbc_mode_eqb : SbcChannelMode → SbcChannelMode → Bool
sbc_mode_eqb sbc_mono sbc_mono = true
sbc_mode_eqb sbc_joint_stereo sbc_joint_stereo = true
sbc_mode_eqb (other_sbc_mode m) (other_sbc_mode n) = m == n
sbc_mode_eqb _ _ = false

abbrev pub method_eqb : SbcAllocMethod → SbcAllocMethod → Bool
method_eqb alloc_md_l alloc_md_l = true
method_eqb (other_method m) (other_method n) = m == n
method_eqb _ _ = false

abbrev pub object_eqb : AacObjectType → AacObjectType → Bool
object_eqb mpeg2_lc mpeg2_lc = true
object_eqb (other_object m) (other_object n) = m == n
object_eqb _ _ = false

abbrev pub ldac_mode_eqb : LdacChannelMode → LdacChannelMode → Bool
ldac_mode_eqb ldac_dual ldac_dual = true
ldac_mode_eqb ldac_stereo ldac_stereo = true
ldac_mode_eqb (other_ldac_mode m) (other_ldac_mode n) = m == n
ldac_mode_eqb _ _ = false

abbrev pub quality_eqb : LdacQualityIndex → LdacQualityIndex → Bool
quality_eqb high high = true
quality_eqb (other_quality m) (other_quality n) = m == n
quality_eqb _ _ = false

-- `ContainedInVector`, with the equality of the type.
unfoldable pub contained_in_vector {ℓ} : {A : Type ℓ} → (A → A → Bool) → List A → A → Bool
contained_in_vector eqb [] x = false
contained_in_vector eqb (y ∷ ys) x = eqb y x || contained_in_vector eqb ys x

pub record SbcCapabilities : Type 0 where
  pub sample_rate_hz : List ℤ
  pub channel_mode : List SbcChannelMode
  pub block_length : List ℤ
  pub num_subbands : List ℤ
  pub alloc_method : List SbcAllocMethod
  pub bits_per_sample : List ℤ
  pub min_bitpool : ℤ
  pub max_bitpool : ℤ

pub record SbcConfiguration : Type 0 where
  pub sample_rate_hz : ℤ
  pub channel_mode : SbcChannelMode
  pub block_length : ℤ
  pub num_subbands : ℤ
  pub alloc_method : SbcAllocMethod
  pub bits_per_sample : ℤ
  pub min_bitpool : ℤ
  pub max_bitpool : ℤ

pub record AacCapabilities : Type 0 where
  pub object_type : List AacObjectType
  pub sample_rate_hz : List ℤ
  pub channel_mode : List ChannelMode
  pub variable_bit_rate_supported : Bool
  pub bits_per_sample : List ℤ

pub record AacConfiguration : Type 0 where
  pub object_type : AacObjectType
  pub sample_rate_hz : ℤ
  pub channel_mode : ChannelMode
  pub variable_bit_rate_enabled : Bool
  pub bits_per_sample : ℤ

pub record LdacCapabilities : Type 0 where
  pub sample_rate_hz : List ℤ
  pub channel_mode : List LdacChannelMode
  pub quality_index : List LdacQualityIndex
  pub bits_per_sample : List ℤ

pub record LdacConfiguration : Type 0 where
  pub sample_rate_hz : ℤ
  pub channel_mode : LdacChannelMode
  pub quality_index : LdacQualityIndex
  pub bits_per_sample : ℤ

pub record AptxCapabilities : Type 0 where
  pub sample_rate_hz : List ℤ
  pub channel_mode : List ChannelMode
  pub bits_per_sample : List ℤ

pub record AptxConfiguration : Type 0 where
  pub sample_rate_hz : ℤ
  pub channel_mode : ChannelMode
  pub bits_per_sample : ℤ

pub record OpusCapabilities : Type 0 where
  pub sampling_frequency_hz : List ℤ
  pub frame_duration_us : List ℤ
  pub channel_mode : List ChannelMode

pub record OpusConfiguration : Type 0 where
  pub sampling_frequency_hz : ℤ
  pub frame_duration_us : ℤ
  pub channel_mode : ChannelMode

-- The union `CodecSpecific`; its Opus member is optional.
pub data CodecSpecific : Type 0 where
  sbc_config : SbcConfiguration → CodecSpecific
  aac_config : AacConfiguration → CodecSpecific
  ldac_config : LdacConfiguration → CodecSpecific
  aptx_config : AptxConfiguration → CodecSpecific
  opus_config : Option OpusConfiguration → CodecSpecific
  other_config : ℕ → CodecSpecific

pub record CodecConfiguration : Type 0 where
  pub codec_type : CodecType
  pub config : CodecSpecific

-- The union `Capabilities`; the first is the default one.
pub data Capabilities : Type 0 where
  no_capabilities : Capabilities
  sbc_capabilities : SbcCapabilities → Capabilities
  aac_capabilities : AacCapabilities → Capabilities
  ldac_capabilities : LdacCapabilities → Capabilities
  aptx_capabilities : AptxCapabilities → Capabilities
  opus_capabilities : OpusCapabilities → Capabilities

pub record CodecCapabilities : Type 0 where
  pub codec_type : CodecType
  pub capabilities : Capabilities
