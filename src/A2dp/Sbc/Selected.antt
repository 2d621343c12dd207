-- ===== src/A2dp/Sbc/Selected.antt =====
-- What `BuildConfiguration` of the SBC codec leaves in a configuration, bit by bit.
use device_phh_treble_doze.Base.{ℕ, ◌≡◌, sym, ◌∙◌, ap, List, Option, some, length, replicate, arith}
use device_phh_treble_doze.A2dp.Bits.{set_bit}
use device_phh_treble_doze.A2dp.Codec.{CodecInfo, CodecParameters}
use device_phh_treble_doze.A2dp.Codec.Building.{
  built, choose, >>=-set_chosen, >>=-built, set_chosen-built,
}
use device_phh_treble_doze.A2dp.Sbc.Codec.Build.{
  build_configuration, build_parts, sampling_frequencies, channel_modes, block_lengths, subbands,
  allocation_methods, select_bitpool, set_bitpool,
}

-- The five bits that the parts have set, in their order.
abbrev pub chosen_bits : ℕ → ℕ → ℕ → ℕ → ℕ → List ℕ
chosen_bits sf cm bl sb am =
    set_bit (set_bit (set_bit (set_bit (set_bit (replicate 4 0) sf 1) cm 1) bl 1) sb 1) am 1

pub record Selected (lcaps rcaps : List ℕ) (hint : Option CodecParameters) (c : List ℕ)
    : Type 0 where
  pub sf : ℕ
  pub cm : ℕ
  pub bl : ℕ
  pub sb : ℕ
  pub am : ℕ
  pub sampling_frequency : choose lcaps rcaps (sampling_frequencies hint) ≡ some sf
  pub channel_mode : choose lcaps rcaps (channel_modes hint) ≡ some cm
  pub block_length : choose lcaps rcaps block_lengths ≡ some bl
  pub subband : choose lcaps rcaps subbands ≡ some sb
  pub allocation_method : choose lcaps rcaps allocation_methods ≡ some am
  pub result :
      c
      ≡ set_bitpool
          (select_bitpool lcaps rcaps hint (chosen_bits sf cm bl sb am))
          (chosen_bits sf cm bl sb am)

built-injective : {a b : List ℕ} → built a ≡ built b → a ≡ b
built-injective e = ground arith

build_parts-Selected :
    (lcaps rcaps : List ℕ) (hint : Option CodecParameters) (c : List ℕ)
    → length lcaps ≡ 4
    → build_parts lcaps rcaps hint ≡ built c
    → Selected lcaps rcaps hint c
unfolding build_parts
build_parts-Selected lcaps rcaps hint c size e =
    let (c5, e5, last) = >>=-built _ _ c e in
    let (c4, e4, am_part) = >>=-set_chosen _ _ c5 e5 in
    let (c3, e3, sb_part) = >>=-set_chosen _ _ c4 e4 in
    let (c2, e2, bl_part) = >>=-set_chosen _ _ c3 e3 in
    let (c1, e1, cm_part) = >>=-set_chosen _ _ c2 e2 in
    let sf_part = set_chosen-built _ _ c1 e1 in
    record {
      sf = sf_part.0;
      cm = cm_part.0;
      bl = bl_part.0;
      sb = sb_part.0;
      am = am_part.0;
      sampling_frequency = sf_part.1;
      channel_mode = cm_part.1;
      block_length = bl_part.1;
      subband = sb_part.1;
      allocation_method = am_part.1;
      result =
          sym (built-injective last)
          ∙ ap (λ b. set_bitpool (select_bitpool lcaps rcaps hint b) b)
              (cc (sf_part.2, cm_part.2, bl_part.2, sb_part.2, am_part.2, size));
    }

pub build-Selected :
    (info : CodecInfo) (rcaps : List ℕ) (hint : Option CodecParameters) (prior c : List ℕ)
    → length info.capabilities ≡ 4
    → build_configuration info rcaps hint prior ≡ built c
    → Selected info.capabilities rcaps hint c
unfolding build_configuration
build-Selected info rcaps hint prior c size e =
    ground (arith, build_parts-Selected info.capabilities rcaps hint c size)
