-- ===== src/A2dp/Sbc/Format.antt =====
-- A2dpOffloadCodecSbc.cpp: the signalling format and the conversion functions.
use device_phh_treble_doze.Base.{
  ℕ, ℤ, pos, negsuc, List, Option, none, some, ◌==◌, if◌then◌else◌, bit_or,
}
use device_phh_treble_doze.A2dp.Bits.{BitRange, range, find_active_bit}
use device_phh_treble_doze.A2dp.Codec.{ChannelMode, unknown, mono, stereo, dualmono}

abbrev pub k_sampling_frequency : BitRange
k_sampling_frequency = range 0 3

abbrev pub k_channel_mode : BitRange
k_channel_mode = range 4 7

abbrev pub k_block_length : BitRange
k_block_length = range 8 11

abbrev pub k_subbands : BitRange
k_subbands = range 12 13

abbrev pub k_allocation_method : BitRange
k_allocation_method = range 14 15

abbrev pub k_minimum_bitpool : BitRange
k_minimum_bitpool = range 16 23

abbrev pub k_maximum_bitpool : BitRange
k_maximum_bitpool = range 24 31

abbrev pub k_capabilities_size : ℕ
k_capabilities_size = 4

-- The bits of each range, in the order of the `enum`s.
abbrev pub k_sampling_frequency_16000 : ℕ
k_sampling_frequency_16000 = 0

abbrev pub k_sampling_frequency_32000 : ℕ
k_sampling_frequency_32000 = 1

abbrev pub k_sampling_frequency_44100 : ℕ
k_sampling_frequency_44100 = 2

abbrev pub k_sampling_frequency_48000 : ℕ
k_sampling_frequency_48000 = 3

abbrev pub k_channel_mode_mono : ℕ
k_channel_mode_mono = 4

abbrev pub k_channel_mode_dual_channel : ℕ
k_channel_mode_dual_channel = 5

abbrev pub k_channel_mode_stereo : ℕ
k_channel_mode_stereo = 6

abbrev pub k_channel_mode_joint_stereo : ℕ
k_channel_mode_joint_stereo = 7

abbrev pub k_block_length_4 : ℕ
k_block_length_4 = 8

abbrev pub k_block_length_8 : ℕ
k_block_length_8 = 9

abbrev pub k_block_length_12 : ℕ
k_block_length_12 = 10

abbrev pub k_block_length_16 : ℕ
k_block_length_16 = 11

abbrev pub k_subbands_8 : ℕ
k_subbands_8 = 12

abbrev pub k_subbands_4 : ℕ
k_subbands_4 = 13

abbrev pub k_allocation_method_snr : ℕ
k_allocation_method_snr = 14

abbrev pub k_allocation_method_loudness : ℕ
k_allocation_method_loudness = 15

-- A switch with `return -1` is an option; one with `return 0` gives 0.
unfoldable pub get_sampling_frequency_bit : ℤ → Option ℕ
get_sampling_frequency_bit (pos hz) =
    if hz == 16000
    then some k_sampling_frequency_16000
    else if hz == 32000
    then some k_sampling_frequency_32000
    else if hz == 44100
    then some k_sampling_frequency_44100
    else if hz == 48000
    then some k_sampling_frequency_48000
    else none
get_sampling_frequency_bit (negsuc _) = none

unfoldable pub get_sampling_frequency_value : Option ℕ → ℕ
get_sampling_frequency_value none = 0
get_sampling_frequency_value (some bit) =
    if bit == k_sampling_frequency_16000
    then 16000
    else if bit == k_sampling_frequency_32000
    then 32000
    else if bit == k_sampling_frequency_44100
    then 44100
    else if bit == k_sampling_frequency_48000
    then 48000
    else 0

unfoldable pub get_channel_mode_bit : ChannelMode → Option ℕ
get_channel_mode_bit stereo = some (bit_or k_channel_mode_joint_stereo k_channel_mode_stereo)
get_channel_mode_bit dualmono = some k_channel_mode_dual_channel
get_channel_mode_bit mono = some k_channel_mode_mono
get_channel_mode_bit unknown = none

unfoldable pub get_channel_mode_enum : ℕ → ChannelMode
get_channel_mode_enum bit =
    if bit == k_channel_mode_mono
    then mono
    else if bit == k_channel_mode_dual_channel
    then dualmono
    else if bit == k_channel_mode_stereo
    then stereo
    else if bit == k_channel_mode_joint_stereo
    then stereo
    else unknown

unfoldable pub get_block_length_value : Option ℕ → ℕ
get_block_length_value none = 0
get_block_length_value (some bit) =
    if bit == k_block_length_4
    then 4
    else if bit == k_block_length_8
    then 8
    else if bit == k_block_length_12
    then 12
    else if bit == k_block_length_16
    then 16
    else 0

unfoldable pub get_subbands_value : Option ℕ → ℕ
get_subbands_value none = 0
get_subbands_value (some bit) =
    if bit == k_subbands_4 then 4 else if bit == k_subbands_8 then 8 else 0

pub data AllocationMethod : Type 0 where
  snr loudness : AllocationMethod

unfoldable pub get_allocation_method_enum : ℕ → AllocationMethod
get_allocation_method_enum bit = if bit == k_allocation_method_snr then snr else loudness

-- The same values, read from a configuration.
unfoldable pub config_sampling_frequency : List ℕ → ℕ
config_sampling_frequency c = get_sampling_frequency_value (find_active_bit c k_sampling_frequency)

unfoldable pub config_block_length : List ℕ → ℕ
config_block_length c = get_block_length_value (find_active_bit c k_block_length)

unfoldable pub config_subbands : List ℕ → ℕ
config_subbands c = get_subbands_value (find_active_bit c k_subbands)
