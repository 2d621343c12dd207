-- ===== src/A2dp/Sbc/Rate.antt =====
-- A2dpOffloadCodecSbc.cpp: frame size, bit rate, and the bitpool of a bit rate. With a bitpool of 8
-- bits no product here reaches 2 ^ 31. A quotient by 0, undefined in C++, is 0 here; it is taken of
-- a configuration with no block length or no subbands only.
use device_phh_treble_doze.Base.{
  ℕ, ℤ, pos, ◌+◌, ◌*◌, ◌/◌, ◌^◌, zero, suc, min, max, List, not, int_ltb, if◌then◌else◌,
}
use device_phh_treble_doze.A2dp.Bits.{get, to_num}
use device_phh_treble_doze.A2dp.Sbc.Format.{
  k_channel_mode_mono, k_channel_mode_dual_channel, k_channel_mode_joint_stereo,
  config_sampling_frequency, config_block_length, config_subbands,
}

abbrev pub k_sbc_header_size : ℕ
k_sbc_header_size = 4

unfoldable pub get_frame_size : List ℕ → ℕ → ℕ
get_frame_size config bitpool =
    let subbands = config_subbands config in
    let blocks = config_block_length config in
    let bits =
      4 * subbands * 2 ^ to_num (not (get config k_channel_mode_mono))
      + blocks * bitpool * 2 ^ to_num (get config k_channel_mode_dual_channel)
      + (if get config k_channel_mode_joint_stereo then subbands else 0) in
    k_sbc_header_size + (bits + 7) / 8

unfoldable pub get_bitrate : List ℕ → ℕ → ℕ
get_bitrate config bitpool =
    let sampling_frequency = config_sampling_frequency config in
    let subbands = config_subbands config in
    let blocks = config_block_length config in
    let bits = 8 * get_frame_size config bitpool in bits * sampling_frequency / (blocks * subbands)

-- The loop over `i = 2 ^ k`, with `k + 1` rounds left; `rate` is `GetBitrate` of the configuration.
unfoldable pub bitpool_loop : (ℕ → ℕ) → ℤ → ℕ → ℕ → ℕ
bitpool_loop rate bitrate zero bitpool = bitpool
bitpool_loop rate bitrate (suc k) bitpool =
    bitpool_loop rate bitrate k
      (if int_ltb (pos (rate (bitpool + 2 ^ k))) bitrate then bitpool + 2 ^ k else bitpool)

-- From `i = 128` down to `i = 1`, then `std::clamp(bitpool, 2, 250)`.
unfoldable pub get_bitpool : List ℕ → ℤ → ℕ
unfolding bitpool_loop
get_bitpool config bitrate =
    let bitpool = bitpool_loop (get_bitrate config) bitrate 8 0 in max 2 (min 250 bitpool)
