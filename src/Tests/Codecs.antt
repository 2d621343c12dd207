-- ===== src/Tests/Codecs.antt =====
-- Examples about the bit fields, the codecs and the codec factory.
use device_phh_treble_doze.Base.{
  ℕ, pos, ◌%◌, ◌^◌, ◌≡◌, refl, List, [], ◌∷◌, none, some, arith, leb, int_ltb, ◌≤◌, ◌↔◌,
}
use device_phh_treble_doze.A2dp.Bits.{
  range, get, get_range, get_loop, scan, set_range, find_active_bit,
}
use device_phh_treble_doze.A2dp.Bits.Laws.{IsBytes}
use device_phh_treble_doze.A2dp.Bits.Range.{get_range-set_range}
use device_phh_treble_doze.A2dp.Bits.Active.{IsOnly, find_active_bit_iff}
use device_phh_treble_doze.A2dp.Codec.{CodecParameters, stereo}
use device_phh_treble_doze.A2dp.Codec.Parsing.{parsed}
use device_phh_treble_doze.A2dp.Codec.Building.{built, choose, set_chosen, IsShared}
use device_phh_treble_doze.A2dp.Codec.Setup.{set_enabled}
use device_phh_treble_doze.A2dp.Sbc.Format.{
  k_minimum_bitpool, k_maximum_bitpool, get_sampling_frequency_bit, get_channel_mode_bit,
  config_subbands, get_subbands_value, config_block_length, get_block_length_value,
  config_sampling_frequency, get_sampling_frequency_value,
}
use device_phh_treble_doze.A2dp.Sbc.Rate.{get_bitpool, bitpool_loop, get_bitrate, get_frame_size}
use device_phh_treble_doze.A2dp.Sbc.Bitpool.{get_bitpool_lem}
use device_phh_treble_doze.A2dp.Sbc.Codec as Sbc
use device_phh_treble_doze.A2dp.Sbc.Codec.Parse as SbcParse
use device_phh_treble_doze.A2dp.Sbc.Codec.Build as SbcBuild
use device_phh_treble_doze.A2dp.Sbc.Selected as SbcSelected
use device_phh_treble_doze.A2dp.Sbc.RoundTrip.{sbc_parse-build, sbc_build-IsShared}
use device_phh_treble_doze.A2dp.Aac.Codec as Aac
use device_phh_treble_doze.A2dp.Aac.Format as AacFormat
use device_phh_treble_doze.A2dp.Aac.Codec.Parse as AacParse
use device_phh_treble_doze.A2dp.Aac.Codec.Build as AacBuild
use device_phh_treble_doze.A2dp.Aac.RoundTrip as AacRoundTrip
use device_phh_treble_doze.A2dp.Aac.Layout as AacLayout
use device_phh_treble_doze.A2dp.Aac.RoundTrip.{aac_parse-build, aac_max_bitrate}

abbrev bytes : List ℕ
bytes = 33 ∷ 25 ∷ 2 ∷ 51 ∷ []

bytes-IsBytes : IsBytes bytes
bytes-IsBytes = (omega arith, (omega arith, (omega arith, (omega arith, tt))))

get_range-set_range_example :
    get_range (set_range bytes (range 12 18) 93) (range 12 18) ≡ 93 % 2 ^ 7
get_range-set_range_example = get_range-set_range bytes (range 12 18) 93 bytes-IsBytes (omega arith)

find_active_bit_iff_example :
    (find_active_bit bytes (range 4 7) ≡ some 7) ↔ IsOnly bytes (range 4 7) 7
find_active_bit_iff_example = find_active_bit_iff bytes (range 4 7) 7

get_bitpool_lem_example :
    (2 ≤ get_bitpool bytes (pos 320000))
    × (get_bitpool bytes (pos 320000) ≤ 250)
    × (leb 51 (get_bitpool bytes (pos 320000)) ≡ int_ltb (pos (get_bitrate bytes 51)) (pos 320000))
get_bitpool_lem_example = get_bitpool_lem bytes (pos 320000) 51 (omega arith) (omega arith)

abbrev pub sbc_remote : List ℕ
sbc_remote = 255 ∷ 255 ∷ 2 ∷ 53 ∷ []

abbrev sbc_hint : CodecParameters
sbc_hint = record {
  channel_mode = stereo;
  sampling_frequency_hz = pos 44100;
  bitdepth = pos 16;
  min_bitrate = pos 0;
  max_bitrate = pos 0;
}

abbrev pub sbc_built : List ℕ
sbc_built = 33 ∷ 25 ∷ 2 ∷ 250 ∷ []

sbc_runs :
    SbcBuild.build_configuration Sbc.codec_info sbc_remote (some sbc_hint) [] ≡ built sbc_built
unfolding SbcBuild.build_configuration SbcBuild.build_parts Sbc.codec_info Sbc.local_capabilities
    SbcBuild.select_bitpool SbcBuild.hinted_bitpool SbcBuild.set_bitpool set_range set_enabled
    set_chosen choose get get_range get_sampling_frequency_bit get_channel_mode_bit get_bitpool
    get_bitrate get_frame_size config_subbands get_subbands_value find_active_bit
    config_block_length get_block_length_value config_sampling_frequency
    get_sampling_frequency_value
sbc_runs = refl

pub sbc_runs_without_hint :
    SbcBuild.build_configuration Sbc.codec_info sbc_remote none [] ≡ built sbc_built
unfolding SbcBuild.build_configuration SbcBuild.build_parts Sbc.codec_info Sbc.local_capabilities
    SbcBuild.select_bitpool SbcBuild.set_bitpool set_range set_enabled set_chosen choose get
    get_range
sbc_runs_without_hint = refl

sbc_parse-build_example :
    (s : SbcSelected.Selected Sbc.local_capabilities sbc_remote (some sbc_hint) sbc_built) × (let (
      lo, hi,
    ) =
        SbcBuild.select_bitpool Sbc.local_capabilities sbc_remote
          (some sbc_hint)
          (SbcSelected.chosen_bits s.sf s.cm s.bl s.sb s.am) in
      SbcParse.parse_configuration Sbc.codec_info sbc_built
      ≡ parsed (SbcParse.parameters sbc_built s.sf s.cm s.bl s.sb s.am lo hi))
sbc_parse-build_example = sbc_parse-build sbc_remote (some sbc_hint) [] sbc_built sbc_runs

sbc_build-IsShared_example : IsShared Sbc.local_capabilities sbc_remote 7
sbc_build-IsShared_example =
    sbc_build-IsShared sbc_remote (some sbc_hint) [] sbc_built sbc_runs 7 (omega arith)
      (unfold get in refl)

abbrev pub aac_remote : List ℕ
aac_remote = 192 ∷ 1 ∷ 140 ∷ 128 ∷ 0 ∷ 0 ∷ []

abbrev aac_hint : CodecParameters
aac_hint = record {
  channel_mode = stereo;
  sampling_frequency_hz = pos 48000;
  bitdepth = pos 16;
  min_bitrate = pos 0;
  max_bitrate = pos 8388609;
}

abbrev aac_built : List ℕ
aac_built = 128 ∷ 0 ∷ 132 ∷ 128 ∷ 0 ∷ 1 ∷ []

aac_runs :
    AacBuild.build_configuration Aac.codec_info aac_remote (some aac_hint) [] ≡ built aac_built
unfolding AacBuild.build_configuration AacBuild.build_parts Aac.codec_info Aac.local_capabilities
    set_range set_enabled set_chosen choose get get_range AacFormat.get_sampling_frequency_bit
    AacFormat.get_channels_bit AacBuild.finish AacBuild.select_bitrate AacBuild.limit_bitrate
    AacBuild.set_vbr
aac_runs = refl

aac_parse-build_example :
    (s : AacRoundTrip.Selected Aac.local_capabilities aac_remote (some aac_hint) aac_built)
    × (AacParse.parse_configuration Aac.codec_info aac_built
        ≡ parsed (
            AacParse.parameters s.ot s.sf s.ch
              (AacLayout.varies Aac.local_capabilities aac_remote (some aac_hint))
              (AacBuild.select_bitrate Aac.local_capabilities (some aac_hint) % 2 ^ 23)))
aac_parse-build_example = aac_parse-build aac_remote (some aac_hint) [] aac_built aac_runs

aac_max_bitrate_example :
    (p : Aac.AacParameters) × (AacParse.parse_configuration Aac.codec_info aac_built ≡ parsed p)
    × (p.codec.max_bitrate ≡ pos (8388609 % 2 ^ 23))
aac_max_bitrate_example =
    aac_max_bitrate aac_remote aac_hint [] aac_built 8388609 refl (omega arith) aac_runs

-- A hint whose maximum of 1 bit per second no bitpool has.
abbrev low_hint : CodecParameters
low_hint = record {
  channel_mode = stereo;
  sampling_frequency_hz = pos 44100;
  bitdepth = pos 16;
  min_bitrate = pos 0;
  max_bitrate = pos 1;
}

abbrev wide_remote : List ℕ
wide_remote = 255 ∷ 255 ∷ 50 ∷ 53 ∷ []

wide_minimum : get_range wide_remote k_minimum_bitpool ≡ 50
unfolding get_range get_loop get
wide_minimum = refl

wide_maximum : get_range wide_remote k_maximum_bitpool ≡ 53
unfolding get_range get_loop get
wide_maximum = refl

low_bitpool : get_bitpool sbc_built (pos 1) ≡ 2
unfolding get_bitpool bitpool_loop get_bitrate get_frame_size config_sampling_frequency
    config_block_length config_subbands get_sampling_frequency_value get_block_length_value
    get_subbands_value find_active_bit get_range get_loop get scan
low_bitpool = refl
