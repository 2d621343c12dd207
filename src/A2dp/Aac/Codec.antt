-- ===== src/A2dp/Aac/Codec.antt =====
-- A2dpOffloadCodecAac.cpp: the constructor.
pub mod Parse
pub mod Build
use device_phh_treble_doze.Base.{ℕ, ℤ, pos, Bool, true, false, List, [], ◌∷◌, map, replicate}
use device_phh_treble_doze.A2dp.Bits.{set_range, to_num}
use device_phh_treble_doze.A2dp.Codec.{ChannelMode, mono, stereo, CodecParameters, CodecInfo, aac}
use device_phh_treble_doze.A2dp.Codec.Setup.{set_enabled, supported}
use device_phh_treble_doze.A2dp.Aac.Format.{
  k_object_type, k_sampling_frequency, k_channels, k_vbr_supported, k_bitrate, k_capabilities_size,
  k_object_type_mpeg2_aac_lc, k_object_type_mpeg4_aac_lc, k_sampling_frequency_44100,
  k_sampling_frequency_48000, k_sampling_frequency_88200, k_sampling_frequency_96000, k_channels_1,
  k_channels_2, ObjectType, get_object_type_enum, get_sampling_frequency_bit,
  get_sampling_frequency_value, get_channels_bit, get_channel_mode_enum,
}

abbrev pub k_bitdepth : ℤ
k_bitdepth = pos 24

-- The bits that the constructor sets, each with its `kEnable` flag, in its order.
enabled_bits : List (ℕ × Bool)
enabled_bits =
    (k_object_type_mpeg2_aac_lc, true)
    ∷ (k_object_type_mpeg4_aac_lc, true)
    ∷ (k_sampling_frequency_44100, true)
    ∷ (k_sampling_frequency_48000, true)
    ∷ (k_sampling_frequency_88200, false)
    ∷ (k_sampling_frequency_96000, false)
    ∷ (k_channels_1, true)
    ∷ (k_channels_2, true)
    ∷ []

unfoldable pub local_capabilities : List ℕ
unfolding enabled_bits
local_capabilities =
    set_range (set_enabled enabled_bits (replicate k_capabilities_size 0)) k_vbr_supported
      (to_num true)

unfoldable pub codec_info : CodecInfo
codec_info = record {
  id = aac;
  capabilities = local_capabilities;
  sampling_frequency_hz = supported get_sampling_frequency_bit local_capabilities (
      pos 8000
      ∷ pos 11025
      ∷ pos 12000
      ∷ pos 16000
      ∷ pos 22050
      ∷ pos 24000
      ∷ pos 32000
      ∷ pos 44100
      ∷ pos 48000
      ∷ pos 64000
      ∷ pos 88200
      ∷ pos 96000
      ∷ []);
  channel_mode = supported get_channels_bit local_capabilities (mono ∷ stereo ∷ []);
  bitdepth = k_bitdepth ∷ [];
}

-- `AacParameters` extends `CodecParameters`.
pub record AacParameters : Type 0 where
  pub codec : CodecParameters
  pub open codec use *
  pub object_type : ObjectType
