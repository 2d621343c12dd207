-- ===== src/A2dp/Sbc/Layout.antt =====
-- The SBC configuration with given bits and bitpools, read field by field.
use device_phh_treble_doze.Base.{ℕ, ◌<◌, ◌%◌, ◌≡◌, ◌∙◌, List, [], ◌∷◌, some, replicate, arith, inl}
use device_phh_treble_doze.A2dp.Bits.{get, get_range, set_range, find_active_bit}
use device_phh_treble_doze.A2dp.Bits.Fields.{
  Within, IsVector, zeros-IsVector, has_bit, set_bits-IsVector, get-set_bits, active_of_list,
  get-set_range_other, get_range-set_range_other, get_range-set_range_self, set_range-IsVector,
}
use device_phh_treble_doze.A2dp.Codec.Building.{get-zeros}
use device_phh_treble_doze.A2dp.Sbc.Format.{
  k_sampling_frequency, k_channel_mode, k_block_length, k_subbands, k_allocation_method,
  k_minimum_bitpool, k_maximum_bitpool,
}
use device_phh_treble_doze.A2dp.Sbc.Codec.Build.{set_bitpool}
use device_phh_treble_doze.A2dp.Sbc.Selected.{chosen_bits}

-- Each bit in its range.
pub record InRanges (sf cm bl sb am : ℕ) : Type 0 where
  pub sf_in : Within 0 3 sf
  pub cm_in : Within 4 7 cm
  pub bl_in : Within 8 11 bl
  pub sb_in : Within 12 13 sb
  pub am_in : Within 14 15 am

module _ (sf cm bl sb am lo hi : ℕ) (h : InRanges sf cm bl sb am) where
  abbrev pub bits : List ℕ
  bits = sf ∷ cm ∷ bl ∷ sb ∷ am ∷ []

  bits-IsVector : IsVector 4 (chosen_bits sf cm bl sb am)
  bits-IsVector = set_bits-IsVector 4 bits (replicate 4 0) (zeros-IsVector 4)

  with_minimum-IsVector : IsVector 4 (set_range (chosen_bits sf cm bl sb am) k_minimum_bitpool lo)
  with_minimum-IsVector = set_range-IsVector 4 _ k_minimum_bitpool lo bits-IsVector

  pub layout-IsVector : IsVector 4 (set_bitpool (lo, hi) (chosen_bits sf cm bl sb am))
  unfolding set_bitpool
  layout-IsVector = set_range-IsVector 4 _ k_maximum_bitpool hi with_minimum-IsVector

  pub get-layout :
      (j : ℕ) → j < 16 → get (set_bitpool (lo, hi) (chosen_bits sf cm bl sb am)) j ≡ has_bit bits j
  unfolding set_bitpool
  get-layout j below = ground (
    arith,
    get-set_range_other 4 _ with_minimum-IsVector k_maximum_bitpool hi j (omega arith)
        (inl (omega arith)),
    get-set_range_other 4 _ bits-IsVector k_minimum_bitpool lo j (omega arith) (inl (omega arith)),
    get-set_bits 4 bits (replicate 4 0) j (zeros-IsVector 4) (omega arith),
    get-zeros 4 j,
  )

  -- The five fields are found again.
  pub layout-active :
      let c = set_bitpool (lo, hi) (chosen_bits sf cm bl sb am) in
      (find_active_bit c k_sampling_frequency ≡ some sf)
      × (find_active_bit c k_channel_mode ≡ some cm)
      × (find_active_bit c k_block_length ≡ some bl)
      × (find_active_bit c k_subbands ≡ some sb)
      × (find_active_bit c k_allocation_method ≡ some am)
  layout-active = (
    active_of_list _ k_sampling_frequency bits sf (λ j x y. get-layout j (omega arith))
        (λ j x y. ground arith) (omega arith) (omega arith),
    active_of_list _ k_channel_mode bits cm (λ j x y. get-layout j (omega arith))
        (λ j x y. ground arith) (omega arith) (omega arith),
    active_of_list _ k_block_length bits bl (λ j x y. get-layout j (omega arith))
        (λ j x y. ground arith) (omega arith) (omega arith),
    active_of_list _ k_subbands bits sb (λ j x y. get-layout j (omega arith))
        (λ j x y. ground arith) (omega arith) (omega arith),
    active_of_list _ k_allocation_method bits am (λ j x y. get-layout j (omega arith))
        (λ j x y. ground arith) (omega arith) (omega arith),
  )

  pub layout-bitpools :
      let c = set_bitpool (lo, hi) (chosen_bits sf cm bl sb am) in
      (get_range c k_minimum_bitpool ≡ lo % 256) × (get_range c k_maximum_bitpool ≡ hi % 256)
  unfolding set_bitpool
  layout-bitpools = (
    get_range-set_range_other 4 _ with_minimum-IsVector k_maximum_bitpool hi k_minimum_bitpool
          (omega arith) (inl (omega arith))
        ∙ get_range-set_range_self 4 _ bits-IsVector k_minimum_bitpool lo (omega arith),
    get_range-set_range_self 4 _ with_minimum-IsVector k_maximum_bitpool hi (omega arith),
  )
