-- ===== src/A2dp/Sbc/Codec/Parse.antt =====
-- A2dpOffloadCodecSbc.cpp: `ParseConfiguration`.
use device_phh_treble_doze.Base.{ℕ, pos, not, List, some, ltb, ◌==◌, ◌||◌, length}
use device_phh_treble_doze.A2dp.Bits.{get, get_range, find_active_bit}
use device_phh_treble_doze.A2dp.Codec.{
  CodecInfo, bad_length, invalid_sampling_frequency, not_supported_sampling_frequency,
  invalid_channel_mode, not_supported_channel_mode, invalid_block_length, invalid_subbands,
  not_supported_subbands, invalid_allocation_method, not_supported_allocation_method,
  invalid_minimum_bitpool_value, not_supported_minimum_bitpool_value, invalid_maximum_bitpool_value,
  not_supported_maximum_bitpool_value,
}
use device_phh_treble_doze.A2dp.Codec.Parsing.{Parsed, parsed, ◌>>=◌, ◌>>◌, fails_if, or_fail}
use device_phh_treble_doze.A2dp.Sbc.Format.{
  k_sampling_frequency, k_channel_mode, k_block_length, k_subbands, k_allocation_method,
  k_minimum_bitpool, k_maximum_bitpool, get_sampling_frequency_value, get_channel_mode_enum,
  get_block_length_value, get_subbands_value, get_allocation_method_enum,
}
use device_phh_treble_doze.A2dp.Sbc.Rate.{get_bitrate}
use device_phh_treble_doze.A2dp.Sbc.Codec.{SbcParameters, k_bitdepth}

-- The part below `Return`, at the bits and bitpools that were found.
unfoldable pub parameters : List ℕ → ℕ → ℕ → ℕ → ℕ → ℕ → ℕ → ℕ → SbcParameters
parameters config sampling_frequency channel_mode block_length subbands method lo hi = record {
  codec = record {
    channel_mode = get_channel_mode_enum channel_mode;
    sampling_frequency_hz = pos (get_sampling_frequency_value (some sampling_frequency));
    bitdepth = k_bitdepth;
    min_bitrate = pos (get_bitrate config lo);
    max_bitrate = pos (get_bitrate config hi);
  };
  allocation_method = get_allocation_method_enum method;
  block_length = get_block_length_value (some block_length);
  subbands = get_subbands_value (some subbands);
  min_bitpool = lo;
  max_bitpool = hi;
}

unfoldable pub parse_configuration : CodecInfo → List ℕ → Parsed SbcParameters
parse_configuration info config = do
  let lcaps = info.capabilities
  fails_if (not (length config == length lcaps)) bad_length
  sampling_frequency ←
      or_fail (find_active_bit config k_sampling_frequency) invalid_sampling_frequency
  fails_if (not (get lcaps sampling_frequency)) not_supported_sampling_frequency
  channel_mode ← or_fail (find_active_bit config k_channel_mode) invalid_channel_mode
  fails_if (not (get lcaps channel_mode)) not_supported_channel_mode
  block_length ← or_fail (find_active_bit config k_block_length) invalid_block_length
  subbands ← or_fail (find_active_bit config k_subbands) invalid_subbands
  fails_if (not (get lcaps subbands)) not_supported_subbands
  method ← or_fail (find_active_bit config k_allocation_method) invalid_allocation_method
  fails_if (not (get lcaps method)) not_supported_allocation_method
  let lo = get_range config k_minimum_bitpool
  fails_if (ltb lo 2 || ltb 250 lo) invalid_minimum_bitpool_value
  fails_if (ltb lo (get_range lcaps k_minimum_bitpool)) not_supported_minimum_bitpool_value
  let hi = get_range config k_maximum_bitpool
  fails_if (ltb hi 2 || ltb 250 hi) invalid_maximum_bitpool_value
  fails_if (ltb (get_range lcaps k_maximum_bitpool) hi) not_supported_maximum_bitpool_value
  parsed (parameters config sampling_frequency channel_mode block_length subbands method lo hi)
