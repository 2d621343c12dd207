-- ===== src/A2dp/Codec.antt =====
-- bluetooth/audio/hal/A2dpOffloadCodec.h: what the two codecs share. The types of the HAL's AIDL
-- interface are reduced to the fields and values that the codecs use; `int32_t` is ℤ.
pub mod Parsing
pub mod Building
pub mod Setup
use device_phh_treble_doze.Base.{ℕ, ℤ, List, Bool, true, false, ◌==◌}

pub data ChannelMode : Type 0 where
  unknown mono stereo dualmono : ChannelMode

-- `CodecId::A2dp::SBC`, `CodecId::A2dp::AAC`, and every other identifier.
pub data CodecId : Type 0 where
  sbc aac : CodecId
  other : ℕ → CodecId

pub data A2dpStatus : Type 0 where
  ok bad_length not_supported_codec_type : A2dpStatus
  invalid_sampling_frequency not_supported_sampling_frequency : A2dpStatus
  invalid_channel_mode not_supported_channel_mode : A2dpStatus
  invalid_block_length : A2dpStatus
  invalid_subbands not_supported_subbands : A2dpStatus
  invalid_allocation_method not_supported_allocation_method : A2dpStatus
  invalid_minimum_bitpool_value not_supported_minimum_bitpool_value : A2dpStatus
  invalid_maximum_bitpool_value not_supported_maximum_bitpool_value : A2dpStatus
  invalid_object_type not_supported_object_type : A2dpStatus
  invalid_channels not_supported_channels : A2dpStatus
  not_supported_vbr not_supported_bit_rate : A2dpStatus

pub record CodecParameters : Type 0 where
  pub channel_mode : ChannelMode
  pub sampling_frequency_hz : ℤ
  pub bitdepth : ℤ
  pub min_bitrate : ℤ
  pub max_bitrate : ℤ

-- `CodecInfo` with its `a2dp` transport.
pub record CodecInfo : Type 0 where
  pub id : CodecId
  pub capabilities : List ℕ
  pub sampling_frequency_hz : List ℤ
  pub channel_mode : List ChannelMode
  pub bitdepth : List ℤ

abbrev pub codec_id_eqb : CodecId → CodecId → Bool
codec_id_eqb sbc sbc = true
codec_id_eqb aac aac = true
codec_id_eqb (other m) (other n) = m == n
codec_id_eqb _ _ = false
