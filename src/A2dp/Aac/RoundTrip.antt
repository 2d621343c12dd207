-- ===== src/A2dp/Aac/RoundTrip.antt =====
-- `BuildConfiguration` and then `ParseConfiguration` of A2dpOffloadCodecAac.cpp.
use device_phh_treble_doze.Base.{
  ℕ, pos, ◌^◌, ◌<◌, ◌%◌, ◌≡◌, refl, sym, ◌∙◌, ap, Bool, true, List, [], ◌∷◌, Option, some, length,
  replicate, All, arith,
}
use device_phh_treble_doze.A2dp.Bits.{
  get, set_bit, set_byte, get_range, get_loop, set_range, set_loop, find_active_bit, to_num,
}
use device_phh_treble_doze.A2dp.Bits.Fields.{Within, set_bits}
use device_phh_treble_doze.A2dp.Codec.{CodecInfo, CodecParameters}
use device_phh_treble_doze.A2dp.Codec.Parsing.{parsed}
use device_phh_treble_doze.A2dp.Codec.Setup.{set_enabled}
use device_phh_treble_doze.A2dp.Codec.Building.{
  built, choose, choose-All, choose-IsShared, >>=-built, >>=-set_chosen, set_chosen-built,
}
use device_phh_treble_doze.A2dp.Aac.Format.{
  k_object_type, k_sampling_frequency, k_channels, k_vbr_supported, k_bitrate,
  get_sampling_frequency_bit, get_channels_bit,
}
use device_phh_treble_doze.A2dp.Aac.Codec.{AacParameters, local_capabilities, codec_info}
use device_phh_treble_doze.A2dp.Aac.Codec.Parse.{parameters, parse_configuration}
use device_phh_treble_doze.A2dp.Aac.Codec.Build.{
  build_configuration, build_parts, object_types, sampling_frequencies, channels, finish,
  select_bitrate, limit_bitrate,
}
use device_phh_treble_doze.A2dp.Aac.Layout.{
  InRanges, varies, layout-IsVector, layout-active, layout-rates,
}

abbrev chosen_bits : ℕ → ℕ → ℕ → List ℕ
chosen_bits ot sf ch = set_bits (ot ∷ sf ∷ ch ∷ []) (replicate 6 0)

-- The bits that the parts have chosen.
pub record Selected (lcaps rcaps : List ℕ) (hint : Option CodecParameters) (c : List ℕ)
    : Type 0 where
  pub ot : ℕ
  pub sf : ℕ
  pub ch : ℕ
  pub object_type : choose lcaps rcaps object_types ≡ some ot
  pub sampling_frequency : choose lcaps rcaps (sampling_frequencies hint) ≡ some sf
  pub channel : choose lcaps rcaps (channels hint) ≡ some ch
  pub result : c ≡ finish lcaps rcaps hint (chosen_bits ot sf ch)

built-injective : {a b : List ℕ} → built a ≡ built b → a ≡ b
built-injective e = ground arith

build_parts-Selected :
    (lcaps rcaps : List ℕ) (hint : Option CodecParameters) (c : List ℕ)
    → length lcaps ≡ 6
    → build_parts lcaps rcaps hint ≡ built c
    → Selected lcaps rcaps hint c
unfolding build_parts
build_parts-Selected lcaps rcaps hint c size e =
    let (c3, e3, last) = >>=-built _ _ c e in
    let (c2, e2, ch_part) = >>=-set_chosen _ _ c3 e3 in
    let (c1, e1, sf_part) = >>=-set_chosen _ _ c2 e2 in
    let ot_part = set_chosen-built _ _ c1 e1 in
    record {
      ot = ot_part.0;
      sf = sf_part.0;
      ch = ch_part.0;
      object_type = ot_part.1;
      sampling_frequency = sf_part.1;
      channel = ch_part.1;
      result =
          sym (built-injective last)
          ∙ ap (finish lcaps rcaps hint) (cc (ot_part.2, sf_part.2, ch_part.2, size));
    }

local_capabilities_lem : local_capabilities ≡ 0xc0 ∷ 0x01 ∷ 0x8c ∷ 0x80 ∷ 0 ∷ 0 ∷ []
unfolding local_capabilities set_bit set_byte set_range set_loop set_enabled
local_capabilities_lem = refl

local_rates :
    (get_range local_capabilities k_vbr_supported ≡ 1)
    × (get_range local_capabilities k_bitrate ≡ 0)
local_rates = rw local_capabilities_lem (unfold get_range get_loop get in (refl, refl))

sampling_frequencies-Within :
    (hint : Option CodecParameters) → All (Within 8 19) (sampling_frequencies hint)
unfolding get_sampling_frequency_bit
sampling_frequencies-Within hint = ground arith

channels-Within : (hint : Option CodecParameters) → All (Within 20 23) (channels hint)
unfolding get_channels_bit
channels-Within hint = ground arith

-- Every check passes.
record Passes (lcaps config : List ℕ) (ot sf ch : ℕ) (vbr : Bool) (bitrate : ℕ) : Type 0 where
  size : length config ≡ length lcaps
  find_ot : find_active_bit config k_object_type ≡ some ot
  find_sf : find_active_bit config k_sampling_frequency ≡ some sf
  find_ch : find_active_bit config k_channels ≡ some ch
  has_ot : get lcaps ot ≡ true
  has_sf : get lcaps sf ≡ true
  has_ch : get lcaps ch ≡ true
  read_vbr : get_range config k_vbr_supported ≡ to_num vbr
  read_bitrate : get_range config k_bitrate ≡ bitrate
  local_vbr : get_range lcaps k_vbr_supported ≡ 1
  local_bitrate : get_range lcaps k_bitrate ≡ 0

parse-Passes :
    (info : CodecInfo) (config : List ℕ) (ot sf ch : ℕ) (vbr : Bool) (bitrate : ℕ)
    → Passes info.capabilities config ot sf ch vbr bitrate
    → parse_configuration info config ≡ parsed (parameters ot sf ch vbr bitrate)
unfolding parse_configuration
parse-Passes info config ot sf ch vbr bitrate v = ground arith

module _ (rcaps : List ℕ) (hint : Option CodecParameters) (c : List ℕ)
    (s : Selected local_capabilities rcaps hint c) where
  Selected-InRanges : InRanges s.ot s.sf s.ch
  Selected-InRanges = record {
    ot_in = choose-All (Within 0 6) _ rcaps _ s.ot (omega arith) s.object_type;
    sf_in =
        choose-All (Within 8 19) _ rcaps _ s.sf (sampling_frequencies-Within hint)
          s.sampling_frequency;
    ch_in = choose-All (Within 20 23) _ rcaps _ s.ch (channels-Within hint) s.channel;
  }

  layout-Passes :
      Passes local_capabilities
        (finish local_capabilities rcaps hint (chosen_bits s.ot s.sf s.ch))
        s.ot
        s.sf
        s.ch
        (varies local_capabilities rcaps hint)
        (select_bitrate local_capabilities hint % 2 ^ 23)
  layout-Passes =
      let h = Selected-InRanges in
      let found = layout-active local_capabilities rcaps hint s.ot s.sf s.ch h in
      let rates = layout-rates local_capabilities rcaps hint s.ot s.sf s.ch h in
      let vector = layout-IsVector local_capabilities rcaps hint s.ot s.sf s.ch h in
      record {
        size = vector.size ∙ ap length (sym local_capabilities_lem);
        find_ot = found.0;
        find_sf = found.1;
        find_ch = found.2;
        has_ot = (choose-IsShared local_capabilities rcaps _ s.ot s.object_type).0;
        has_sf = (choose-IsShared local_capabilities rcaps _ s.sf s.sampling_frequency).0;
        has_ch = (choose-IsShared local_capabilities rcaps _ s.ch s.channel).0;
        read_vbr = rates.0;
        read_bitrate = rates.1;
        local_vbr = local_rates.0;
        local_bitrate = local_rates.1;
      }

-- Whatever the remote capabilities and the hint are, a configuration that `BuildConfiguration` of
-- the AAC codec returns is accepted by its `ParseConfiguration`, which reads back the selected bits,
-- whether the rate varies, and the selected bit rate cut to 23 bits.
pub aac_parse-build :
    (rcaps : List ℕ) (hint : Option CodecParameters) (prior c : List ℕ)
    → build_configuration codec_info rcaps hint prior ≡ built c
    → (s : Selected local_capabilities rcaps hint c) × (parse_configuration codec_info c
        ≡ parsed (
            parameters s.ot s.sf s.ch
              (varies local_capabilities rcaps hint)
              (select_bitrate local_capabilities hint % 2 ^ 23)))
unfolding build_configuration codec_info
aac_parse-build rcaps hint prior c done =
    let s : Selected local_capabilities rcaps hint c =
      build_parts-Selected local_capabilities rcaps hint c (ap length local_capabilities_lem)
        (ground arith) in
    (s, rw s.result (parse-Passes codec_info _ s.ot s.sf s.ch _ _ (layout-Passes rcaps hint c s)))

-- A positive `maxBitrate` of the hint is cut to 23 bits in a built AAC configuration: that is the
-- maximum which the parser reads back.
pub aac_max_bitrate :
    (rcaps : List ℕ) (hint : CodecParameters) (prior c : List ℕ) (n : ℕ)
    → hint.max_bitrate ≡ pos n
    → 0 < n
    → build_configuration codec_info rcaps (some hint) prior ≡ built c
    → (p : AacParameters) × (parse_configuration codec_info c ≡ parsed p)
      × (p.codec.max_bitrate ≡ pos (n % 2 ^ 23))
unfolding select_bitrate limit_bitrate parameters
aac_max_bitrate rcaps hint prior c n most positive done =
    let (s, agrees) = aac_parse-build rcaps (some hint) prior c done in
    let selected : select_bitrate local_capabilities (some hint) ≡ n =
      ground (arith, local_rates.1) in
    (
      parameters s.ot s.sf s.ch (varies local_capabilities rcaps (some hint))
          (select_bitrate local_capabilities (some hint) % 2 ^ 23),
      agrees,
      ap (λ k. pos (k % 2 ^ 23)) selected,
    )
