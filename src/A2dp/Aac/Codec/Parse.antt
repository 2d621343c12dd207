-- ===== src/A2dp/Aac/Codec/Parse.antt =====
-- A2dpOffloadCodecAac.cpp: `ParseConfiguration`.
use device_phh_treble_doze.Base.{ℕ, pos, Bool, not, List, ltb, ◌==◌, ◌&&◌, length, if◌then◌else◌}
use device_phh_treble_doze.A2dp.Bits.{get, get_range, find_active_bit}
use device_phh_treble_doze.A2dp.Codec.{
  CodecInfo, bad_length, invalid_object_type, not_supported_object_type, invalid_sampling_frequency,
  not_supported_sampling_frequency, invalid_channels, not_supported_channels, not_supported_vbr,
  not_supported_bit_rate,
}
use device_phh_treble_doze.A2dp.Codec.Parsing.{Parsed, parsed, ◌>>=◌, ◌>>◌, fails_if, or_fail}
use device_phh_treble_doze.A2dp.Aac.Codec.{AacParameters, k_bitdepth}
use device_phh_treble_doze.A2dp.Aac.Format.{
  k_object_type, k_sampling_frequency, k_channels, k_vbr_supported, k_bitrate, get_object_type_enum,
  get_sampling_frequency_value, get_channel_mode_enum,
}

-- The part below `Return`, at the bits and the bit rate that were found.
unfoldable pub parameters : ℕ → ℕ → ℕ → Bool → ℕ → AacParameters
parameters object_type sampling_frequency channels vbr bitrate = record {
  codec = record {
    channel_mode = get_channel_mode_enum channels;
    sampling_frequency_hz = pos (get_sampling_frequency_value sampling_frequency);
    bitdepth = k_bitdepth;
    min_bitrate = pos (if vbr then 0 else bitrate);
    max_bitrate = pos bitrate;
  };
  object_type = get_object_type_enum object_type;
}

unfoldable pub parse_configuration : CodecInfo → List ℕ → Parsed AacParameters
parse_configuration info config = do
  let lcaps = info.capabilities
  fails_if (not (length config == length lcaps)) bad_length
  object_type ← or_fail (find_active_bit config k_object_type) invalid_object_type
  fails_if (not (get lcaps object_type)) not_supported_object_type
  sampling_frequency ←
      or_fail (find_active_bit config k_sampling_frequency) invalid_sampling_frequency
  fails_if (not (get lcaps sampling_frequency)) not_supported_sampling_frequency
  channels ← or_fail (find_active_bit config k_channels) invalid_channels
  fails_if (not (get lcaps channels)) not_supported_channels
  let vbr = not (get_range config k_vbr_supported == 0)
  fails_if (vbr && get_range lcaps k_vbr_supported == 0) not_supported_vbr
  let bitrate = get_range config k_bitrate
  fails_if
      (vbr && (not (get_range lcaps k_bitrate == 0) && ltb (get_range lcaps k_bitrate) bitrate))
      not_supported_bit_rate
  parsed (parameters object_type sampling_frequency channels vbr bitrate)
