-- ===== src/A2dp/Sbc/Codec.antt =====
-- A2dpOffloadCodecSbc.cpp: the constructor, `ParseConfiguration` and `BuildConfiguration`.
pub mod Parse
pub mod Build
use device_phh_treble_doze.Base.{
  ℕ, ℤ, pos, Bool, true, false, List, [], ◌∷◌, Option, none, some, map, replicate, if◌then◌else◌,
}
use device_phh_treble_doze.A2dp.Bits.{get, set_bit, set_range, to_num}
use device_phh_treble_doze.A2dp.Codec.{
  ChannelMode, mono, stereo, dualmono, CodecParameters, CodecInfo, sbc,
}
use device_phh_treble_doze.A2dp.Codec.Setup.{set_enabled, supported}
use device_phh_treble_doze.A2dp.Sbc.Format.{
  k_minimum_bitpool, k_maximum_bitpool, k_capabilities_size, k_sampling_frequency_44100,
  k_sampling_frequency_48000, k_channel_mode_mono, k_channel_mode_dual_channel,
  k_channel_mode_stereo, k_channel_mode_joint_stereo, k_block_length_4, k_block_length_8,
  k_block_length_12, k_block_length_16, k_subbands_8, k_subbands_4, k_allocation_method_snr,
  k_allocation_method_loudness, get_sampling_frequency_bit, get_channel_mode_bit, AllocationMethod,
}

abbrev pub k_default_minimum_bitpool : ℕ
k_default_minimum_bitpool = 2

abbrev pub k_default_maximum_bitpool : ℕ
k_default_maximum_bitpool = 250

abbrev pub k_bitdepth : ℤ
k_bitdepth = pos 16

-- The bits that the constructor sets, each with its `kEnable` flag, in its order.
enabled_bits : List (ℕ × Bool)
enabled_bits =
    (k_sampling_frequency_44100, true)
    ∷ (k_sampling_frequency_48000, true)
    ∷ (k_channel_mode_mono, true)
    ∷ (k_channel_mode_dual_channel, true)
    ∷ (k_channel_mode_stereo, true)
    ∷ (k_channel_mode_joint_stereo, true)
    ∷ (k_block_length_4, true)
    ∷ (k_block_length_8, true)
    ∷ (k_block_length_12, true)
    ∷ (k_block_length_16, true)
    ∷ (k_subbands_4, true)
    ∷ (k_subbands_8, true)
    ∷ (k_subbands_4, true)
    ∷ (k_subbands_8, true)
    ∷ (k_allocation_method_snr, true)
    ∷ (k_allocation_method_loudness, true)
    ∷ []

unfoldable pub local_capabilities : List ℕ
unfolding enabled_bits
local_capabilities =
    set_range
      (set_range (set_enabled enabled_bits (replicate k_capabilities_size 0)) k_minimum_bitpool
        k_default_minimum_bitpool)
      k_maximum_bitpool k_default_maximum_bitpool

unfoldable pub codec_info : CodecInfo
codec_info = record {
  id = sbc;
  capabilities = local_capabilities;
  sampling_frequency_hz =
      supported get_sampling_frequency_bit local_capabilities
        (pos 16000 ∷ pos 32000 ∷ pos 44100 ∷ pos 48000 ∷ []);
  channel_mode = supported get_channel_mode_bit local_capabilities (mono ∷ dualmono ∷ stereo ∷ []);
  bitdepth = k_bitdepth ∷ [];
}

-- `SbcParameters` extends `CodecParameters`.
pub record SbcParameters : Type 0 where
  pub codec : CodecParameters
  pub open codec use *
  pub allocation_method : AllocationMethod
  pub block_length : ℕ
  pub subbands : ℕ
  pub min_bitpool : ℕ
  pub max_bitpool : ℕ
