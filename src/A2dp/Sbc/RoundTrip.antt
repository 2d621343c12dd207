-- ===== src/A2dp/Sbc/RoundTrip.antt =====
-- `BuildConfiguration` and then `ParseConfiguration` of A2dpOffloadCodecSbc.cpp.
use device_phh_treble_doze.Base.{
  ℕ, ℤ, ◌≤◌, ◌<◌, ◌≡◌, refl, sym, ◌∙◌, ap, true, List, [], ◌∷◌, Option, none, some, length, All,
  arith,
}
use device_phh_treble_doze.A2dp.Bits.{
  get, set_bit, set_byte, get_range, get_loop, set_range, set_loop, find_active_bit,
}
use device_phh_treble_doze.A2dp.Bits.Fields.{Within}
use device_phh_treble_doze.A2dp.Sbc.Layout.{
  InRanges, get-layout, layout-IsVector, layout-active, layout-bitpools,
}
use device_phh_treble_doze.A2dp.Codec.{CodecInfo, CodecParameters}
use device_phh_treble_doze.A2dp.Codec.Parsing.{parsed}
use device_phh_treble_doze.A2dp.Codec.Setup.{set_enabled}
use device_phh_treble_doze.A2dp.Codec.Building.{built, IsShared, choose-All, choose-IsShared}
use device_phh_treble_doze.A2dp.Sbc.Format.{
  k_sampling_frequency, k_channel_mode, k_block_length, k_subbands, k_allocation_method,
  k_minimum_bitpool, k_maximum_bitpool, get_sampling_frequency_bit, get_channel_mode_bit,
}
use device_phh_treble_doze.A2dp.Sbc.Rate.{get_bitpool}
use device_phh_treble_doze.A2dp.Sbc.Codec.{local_capabilities, codec_info}
use device_phh_treble_doze.A2dp.Sbc.Codec.Parse.{parameters, parse_configuration}
use device_phh_treble_doze.A2dp.Sbc.Codec.Build.{
  build_configuration, sampling_frequencies, channel_modes, select_bitpool, set_bitpool,
  remote_bitpool, hinted_bitpool,
}
use device_phh_treble_doze.A2dp.Sbc.Selected.{Selected, chosen_bits, build-Selected}

pub local_capabilities_lem : local_capabilities ≡ 0x3f ∷ 0xff ∷ 2 ∷ 250 ∷ []
unfolding local_capabilities set_bit set_byte set_range set_loop set_enabled
local_capabilities_lem = refl

sampling_frequencies-Within :
    (hint : Option CodecParameters) → All (Within 0 3) (sampling_frequencies hint)
unfolding get_sampling_frequency_bit
sampling_frequencies-Within hint = ground arith

channel_modes-Within : (hint : Option CodecParameters) → All (Within 4 7) (channel_modes hint)
unfolding get_channel_mode_bit
channel_modes-Within hint = ground arith

-- The bitpools that are selected lie in the range that the parser accepts.
get_bitpool_bounds : (config : List ℕ) (bitrate : ℤ) → Within 2 250 (get_bitpool config bitrate)
unfolding get_bitpool
get_bitpool_bounds config bitrate = omega arith

select_bitpool_bounds :
    (lcaps rcaps : List ℕ) (hint : Option CodecParameters) (config : List ℕ)
    → get_range lcaps k_minimum_bitpool ≡ 2
    → get_range lcaps k_maximum_bitpool ≡ 250
    → Within 2 250 (select_bitpool lcaps rcaps hint config).0
      × Within 2 250 (select_bitpool lcaps rcaps hint config).1
unfolding select_bitpool remote_bitpool hinted_bitpool
select_bitpool_bounds lcaps rcaps none config lo hi = ground arith
select_bitpool_bounds lcaps rcaps (some hint) config lo hi =
    ground (
      arith,
      get_bitpool_bounds config hint.min_bitrate,
      get_bitpool_bounds config hint.max_bitrate,
    )

select_bitpool-none :
    (lcaps rcaps config : List ℕ)
    → get_range lcaps k_maximum_bitpool ≡ 250
    → 250 ≤ (select_bitpool lcaps rcaps none config).1
unfolding select_bitpool remote_bitpool hinted_bitpool
select_bitpool-none lcaps rcaps config hi = ground arith

-- Every check passes.
record Passes (lcaps config : List ℕ) (sf cm bl sb am lo hi : ℕ) : Type 0 where
  size : length config ≡ length lcaps
  find_sf : find_active_bit config k_sampling_frequency ≡ some sf
  find_cm : find_active_bit config k_channel_mode ≡ some cm
  find_bl : find_active_bit config k_block_length ≡ some bl
  find_sb : find_active_bit config k_subbands ≡ some sb
  find_am : find_active_bit config k_allocation_method ≡ some am
  has_sf : get lcaps sf ≡ true
  has_cm : get lcaps cm ≡ true
  has_sb : get lcaps sb ≡ true
  has_am : get lcaps am ≡ true
  minimum : get_range config k_minimum_bitpool ≡ lo
  maximum : get_range config k_maximum_bitpool ≡ hi
  minimum_in : Within 2 250 lo
  maximum_in : Within 2 250 hi
  minimum_local : get_range lcaps k_minimum_bitpool ≤ lo
  maximum_local : hi ≤ get_range lcaps k_maximum_bitpool

parse-Passes :
    (info : CodecInfo) (config : List ℕ) (sf cm bl sb am lo hi : ℕ)
    → Passes info.capabilities config sf cm bl sb am lo hi
    → parse_configuration info config ≡ parsed (parameters config sf cm bl sb am lo hi)
unfolding parse_configuration
parse-Passes info config sf cm bl sb am lo hi v = ground arith

pub local_bitpools :
    (get_range local_capabilities k_minimum_bitpool ≡ 2)
    × (get_range local_capabilities k_maximum_bitpool ≡ 250)
local_bitpools = rw local_capabilities_lem (unfold get_range get_loop get in (refl, refl))

module _ (rcaps : List ℕ) (hint : Option CodecParameters) (c : List ℕ)
    (s : Selected local_capabilities rcaps hint c) where
  Selected-InRanges : InRanges s.sf s.cm s.bl s.sb s.am
  Selected-InRanges = record {
    sf_in =
        choose-All (Within 0 3) _ rcaps _ s.sf (sampling_frequencies-Within hint)
          s.sampling_frequency;
    cm_in = choose-All (Within 4 7) _ rcaps _ s.cm (channel_modes-Within hint) s.channel_mode;
    bl_in = choose-All (Within 8 11) _ rcaps _ s.bl (omega arith) s.block_length;
    sb_in = choose-All (Within 12 13) _ rcaps _ s.sb (omega arith) s.subband;
    am_in = choose-All (Within 14 15) _ rcaps _ s.am (omega arith) s.allocation_method;
  }

  abbrev bitpool : ℕ × ℕ
  bitpool = select_bitpool local_capabilities rcaps hint (chosen_bits s.sf s.cm s.bl s.sb s.am)

  bitpool_bounds : Within 2 250 bitpool.0 × Within 2 250 bitpool.1
  bitpool_bounds =
      select_bitpool_bounds local_capabilities rcaps hint _ local_bitpools.0 local_bitpools.1

  abbrev layout : List ℕ
  layout = set_bitpool bitpool (chosen_bits s.sf s.cm s.bl s.sb s.am)

  layout-Passes : Passes local_capabilities layout s.sf s.cm s.bl s.sb s.am bitpool.0 bitpool.1
  layout-Passes =
      let h = Selected-InRanges in
      let found = layout-active s.sf s.cm s.bl s.sb s.am bitpool.0 bitpool.1 h in
      let pools = layout-bitpools s.sf s.cm s.bl s.sb s.am bitpool.0 bitpool.1 h in
      let vector = layout-IsVector s.sf s.cm s.bl s.sb s.am bitpool.0 bitpool.1 h in
      let (lo_in, hi_in) = bitpool_bounds in
      record {
        size = vector.size ∙ ap length (sym local_capabilities_lem);
        find_sf = found.0;
        find_cm = found.1;
        find_bl = found.2;
        find_sb = found.3;
        find_am = found.4;
        has_sf = (choose-IsShared local_capabilities rcaps _ s.sf s.sampling_frequency).0;
        has_cm = (choose-IsShared local_capabilities rcaps _ s.cm s.channel_mode).0;
        has_sb = (choose-IsShared local_capabilities rcaps _ s.sb s.subband).0;
        has_am = (choose-IsShared local_capabilities rcaps _ s.am s.allocation_method).0;
        minimum = omega (arith, pools.0);
        maximum = omega (arith, pools.1);
        minimum_in = lo_in;
        maximum_in = hi_in;
        minimum_local = omega (arith, local_bitpools.0);
        maximum_local = omega (arith, local_bitpools.1);
      }

  -- The parser reads back what was selected.
  pub parse-Selected :
      parse_configuration codec_info c
      ≡ parsed (parameters c s.sf s.cm s.bl s.sb s.am bitpool.0 bitpool.1)
  unfolding codec_info
  parse-Selected =
      rw s.result
        (parse-Passes codec_info layout s.sf s.cm s.bl s.sb s.am bitpool.0 bitpool.1 layout-Passes)

  Selected-IsShared : (j : ℕ) → j < 16 → get c j ≡ true → IsShared local_capabilities rcaps j
  Selected-IsShared j below e = ground (
    arith,
    ap (λ (v : List ℕ). get v j) s.result,
    get-layout s.sf s.cm s.bl s.sb s.am bitpool.0 bitpool.1 Selected-InRanges j below,
    choose-IsShared local_capabilities rcaps _ s.sf s.sampling_frequency,
    choose-IsShared local_capabilities rcaps _ s.cm s.channel_mode,
    choose-IsShared local_capabilities rcaps _ s.bl s.block_length,
    choose-IsShared local_capabilities rcaps _ s.sb s.subband,
    choose-IsShared local_capabilities rcaps _ s.am s.allocation_method,
  )

module _ (rcaps : List ℕ) (hint : Option CodecParameters) (prior c : List ℕ)
    (done : build_configuration codec_info rcaps hint prior ≡ built c) where
  build-Selected_local : Selected local_capabilities rcaps hint c
  build-Selected_local =
      unfold codec_info in
      build-Selected codec_info rcaps hint prior c (ap length local_capabilities_lem) done

  -- Whatever the remote capabilities and the hint are, a configuration that `BuildConfiguration` of
  -- the SBC codec returns is accepted by its `ParseConfiguration`, which reads back the selected
  -- bits and bitpools.
  pub sbc_parse-build :
      (s : Selected local_capabilities rcaps hint c) × (let (lo, hi) =
          select_bitpool local_capabilities rcaps hint (chosen_bits s.sf s.cm s.bl s.sb s.am) in
        parse_configuration codec_info c ≡ parsed (parameters c s.sf s.cm s.bl s.sb s.am lo hi))
  sbc_parse-build = (build-Selected_local, parse-Selected rcaps hint c build-Selected_local)

  -- Each bit that is set in the five fields of a built SBC configuration is supported on both sides.
  pub sbc_build-IsShared : (j : ℕ) → j < 16 → get c j ≡ true → IsShared local_capabilities rcaps j
  sbc_build-IsShared = Selected-IsShared rcaps hint c build-Selected_local

-- Without a hint the maximum bitpool of a built SBC configuration is 250, whatever maximum the
-- remote side has announced.
pub sbc_build_maximum :
    (rcaps prior c : List ℕ)
    → build_configuration codec_info rcaps none prior ≡ built c
    → get_range c k_maximum_bitpool ≡ 250
sbc_build_maximum rcaps prior c done =
    let s = build-Selected_local rcaps none prior c done in
    let (lo, hi) =
      select_bitpool local_capabilities rcaps none (chosen_bits s.sf s.cm s.bl s.sb s.am) in
    omega (
      arith,
      ap (λ (v : List ℕ). get_range v k_maximum_bitpool) s.result,
      layout-bitpools s.sf s.cm s.bl s.sb s.am lo hi (Selected-InRanges rcaps none c s),
      bitpool_bounds rcaps none c s,
      select_bitpool-none local_capabilities rcaps (chosen_bits s.sf s.cm s.bl s.sb s.am)
          local_bitpools.1,
    )
