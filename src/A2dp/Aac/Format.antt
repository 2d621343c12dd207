-- ===== src/A2dp/Aac/Format.antt =====
-- A2dpOffloadCodecAac.cpp: the signalling format and the conversion functions.
use device_phh_treble_doze.Base.{ℕ, ℤ, pos, negsuc, Option, none, some, ◌==◌, if◌then◌else◌}
use device_phh_treble_doze.A2dp.Bits.{BitRange, range, single}
use device_phh_treble_doze.A2dp.Codec.{ChannelMode, unknown, mono, stereo, dualmono}

abbrev pub k_object_type : BitRange
k_object_type = range 0 6

abbrev pub k_drc_enable : BitRange
k_drc_enable = single 7

abbrev pub k_sampling_frequency : BitRange
k_sampling_frequency = range 8 19

abbrev pub k_channels : BitRange
k_channels = range 20 23

abbrev pub k_vbr_supported : BitRange
k_vbr_supported = single 24

abbrev pub k_bitrate : BitRange
k_bitrate = range 25 47

abbrev pub k_capabilities_size : ℕ
k_capabilities_size = 6

-- The bits of each range, in the order of the `enum`s.
abbrev pub k_object_type_mpeg2_aac_lc : ℕ
k_object_type_mpeg2_aac_lc = 0

abbrev pub k_object_type_mpeg4_aac_lc : ℕ
k_object_type_mpeg4_aac_lc = 1

abbrev pub k_sampling_frequency_8000 : ℕ
k_sampling_frequency_8000 = 8

abbrev pub k_sampling_frequency_11025 : ℕ
k_sampling_frequency_11025 = 9

abbrev pub k_sampling_frequency_12000 : ℕ
k_sampling_frequency_12000 = 10

abbrev pub k_sampling_frequency_16000 : ℕ
k_sampling_frequency_16000 = 11

abbrev pub k_sampling_frequency_22050 : ℕ
k_sampling_frequency_22050 = 12

abbrev pub k_sampling_frequency_24000 : ℕ
k_sampling_frequency_24000 = 13

abbrev pub k_sampling_frequency_32000 : ℕ
k_sampling_frequency_32000 = 14

abbrev pub k_sampling_frequency_44100 : ℕ
k_sampling_frequency_44100 = 15

abbrev pub k_sampling_frequency_48000 : ℕ
k_sampling_frequency_48000 = 16

abbrev pub k_sampling_frequency_64000 : ℕ
k_sampling_frequency_64000 = 17

abbrev pub k_sampling_frequency_88200 : ℕ
k_sampling_frequency_88200 = 18

abbrev pub k_sampling_frequency_96000 : ℕ
k_sampling_frequency_96000 = 19

abbrev pub k_channels_1 : ℕ
k_channels_1 = 20

abbrev pub k_channels_2 : ℕ
k_channels_2 = 21

pub data ObjectType : Type 0 where
  mpeg2_aac_lc mpeg4_aac_lc : ObjectType

unfoldable pub get_object_type_enum : ℕ → ObjectType
get_object_type_enum bit = if bit == k_object_type_mpeg2_aac_lc then mpeg2_aac_lc else mpeg4_aac_lc

-- A switch with `return -1` is an option.
unfoldable pub get_sampling_frequency_bit : ℤ → Option ℕ
get_sampling_frequency_bit (pos hz) =
    if hz == 8000
    then some k_sampling_frequency_8000
    else if hz == 11025
    then some k_sampling_frequency_11025
    else if hz == 12000
    then some k_sampling_frequency_12000
    else if hz == 16000
    then some k_sampling_frequency_16000
    else if hz == 22050
    then some k_sampling_frequency_22050
    else if hz == 24000
    then some k_sampling_frequency_24000
    else if hz == 32000
    then some k_sampling_frequency_32000
    else if hz == 44100
    then some k_sampling_frequency_44100
    else if hz == 48000
    then some k_sampling_frequency_48000
    else if hz == 64000
    then some k_sampling_frequency_64000
    else if hz == 88200
    then some k_sampling_frequency_88200
    else if hz == 96000
    then some k_sampling_frequency_96000
    else none
get_sampling_frequency_bit (negsuc _) = none

unfoldable pub get_sampling_frequency_value : ℕ → ℕ
get_sampling_frequency_value bit =
    if bit == k_sampling_frequency_8000
    then 8000
    else if bit == k_sampling_frequency_11025
    then 11025
    else if bit == k_sampling_frequency_12000
    then 12000
    else if bit == k_sampling_frequency_16000
    then 16000
    else if bit == k_sampling_frequency_22050
    then 22050
    else if bit == k_sampling_frequency_24000
    then 24000
    else if bit == k_sampling_frequency_32000
    then 32000
    else if bit == k_sampling_frequency_44100
    then 44100
    else if bit == k_sampling_frequency_48000
    then 48000
    else if bit == k_sampling_frequency_64000
    then 64000
    else if bit == k_sampling_frequency_88200
    then 88200
    else if bit == k_sampling_frequency_96000
    then 96000
    else 0

unfoldable pub get_channels_bit : ChannelMode → Option ℕ
get_channels_bit mono = some k_channels_1
get_channels_bit stereo = some k_channels_2
get_channels_bit dualmono = none
get_channels_bit unknown = none

unfoldable pub get_channel_mode_enum : ℕ → ChannelMode
get_channel_mode_enum bit =
    if bit == k_channels_1 then mono else if bit == k_channels_2 then stereo else unknown
