-- ===== src/A2dp/Aac/Layout.antt =====
-- The AAC configuration with given bits and values, read field by field.
use device_phh_treble_doze.Base.{
  ℕ, ◌^◌, ◌<◌, ◌%◌, ◌≡◌, refl, ◌∙◌, Bool, List, [], ◌∷◌, Option, some, ◌==◌, replicate, arith, inl,
  not, ◌&&◌,
}
use device_phh_treble_doze.A2dp.Bits.{get, get_range, get_loop, find_active_bit, to_num}
use device_phh_treble_doze.A2dp.Bits.Range.{get_range_ext}
use device_phh_treble_doze.A2dp.Bits.Fields.{
  Within, IsVector, zeros-IsVector, set_bits, has_bit, set_bits-IsVector, get-set_bits,
  active_of_list, get-set_range_other, get_range-set_range_other, get_range-set_range_self,
  set_range-IsVector,
}
use device_phh_treble_doze.A2dp.Codec.{CodecParameters}
use device_phh_treble_doze.A2dp.Codec.Building.{get-zeros}
use device_phh_treble_doze.A2dp.Aac.Format.{
  k_object_type, k_sampling_frequency, k_channels, k_vbr_supported, k_bitrate,
}
use device_phh_treble_doze.A2dp.Aac.Codec.Build.{set_vbr, may_vary, finish, select_bitrate}

-- Each bit in its range.
pub record InRanges (ot sf ch : ℕ) : Type 0 where
  pub ot_in : Within 0 6 ot
  pub sf_in : Within 8 19 sf
  pub ch_in : Within 20 23 ch

-- The bit for a variable bit rate is asked for, and supported on both sides.
abbrev pub varies : List ℕ → List ℕ → Option CodecParameters → Bool
varies lcaps rcaps hint =
    may_vary hint
    && (not (get_range lcaps k_vbr_supported == 0) && not (get_range rcaps k_vbr_supported == 0))

module _ (lcaps rcaps : List ℕ) (hint : Option CodecParameters) (ot sf ch : ℕ)
    (h : InRanges ot sf ch) where
  abbrev pub bits : List ℕ
  bits = ot ∷ sf ∷ ch ∷ []

  abbrev pub chosen : List ℕ
  chosen = set_bits bits (replicate 6 0)

  abbrev pub layout : List ℕ
  layout = finish lcaps rcaps hint chosen

  chosen-IsVector : IsVector 6 chosen
  chosen-IsVector = set_bits-IsVector 6 bits (replicate 6 0) (zeros-IsVector 6)

  set_vbr-IsVector : IsVector 6 (set_vbr lcaps rcaps hint chosen)
  unfolding set_vbr
  set_vbr-IsVector = ground (
    arith,
    chosen-IsVector,
    set_range-IsVector 6 chosen k_vbr_supported
        (to_num (
          not (get_range lcaps k_vbr_supported == 0) && not (get_range rcaps k_vbr_supported == 0)))
        chosen-IsVector,
  )

  pub layout-IsVector : IsVector 6 layout
  unfolding finish
  layout-IsVector = set_range-IsVector 6 _ k_bitrate _ set_vbr-IsVector

  get-chosen : (j : ℕ) → get chosen j ≡ has_bit bits j
  get-chosen j =
      ground (
        arith,
        get-set_bits 6 bits (replicate 6 0) j (zeros-IsVector 6) (omega arith),
        get-zeros 6 j,
      )

  get-set_vbr : (j : ℕ) → j < 24 → get (set_vbr lcaps rcaps hint chosen) j ≡ has_bit bits j
  unfolding set_vbr
  get-set_vbr j below = ground (
    arith,
    get-chosen j,
    get-set_range_other 6 chosen chosen-IsVector k_vbr_supported
        (to_num (
          not (get_range lcaps k_vbr_supported == 0) && not (get_range rcaps k_vbr_supported == 0)))
        j (omega arith) (inl (omega arith)),
  )

  get-layout : (j : ℕ) → j < 24 → get layout j ≡ has_bit bits j
  unfolding finish
  get-layout j below =
      get-set_range_other 6 _ set_vbr-IsVector k_bitrate _ j (omega arith) (inl (omega arith))
      ∙ get-set_vbr j below

  -- The three fields are found again.
  pub layout-active :
      (find_active_bit layout k_object_type ≡ some ot)
      × (find_active_bit layout k_sampling_frequency ≡ some sf)
      × (find_active_bit layout k_channels ≡ some ch)
  layout-active = (
    active_of_list _ k_object_type bits ot (λ j x y. get-layout j (omega arith))
        (λ j x y. ground arith) (omega arith) (omega arith),
    active_of_list _ k_sampling_frequency bits sf (λ j x y. get-layout j (omega arith))
        (λ j x y. ground arith) (omega arith) (omega arith),
    active_of_list _ k_channels bits ch (λ j x y. get-layout j (omega arith))
        (λ j x y. ground arith) (omega arith) (omega arith),
  )

  vbr-zeros : get_range (replicate 6 0) k_vbr_supported ≡ 0
  unfolding get_range get_loop get
  vbr-zeros = refl

  vbr-chosen : get_range chosen k_vbr_supported ≡ 0
  vbr-chosen =
      get_range_ext chosen (replicate 6 0) k_vbr_supported
        (λ j x y. ground (arith, get-chosen j, get-zeros 6 j))
      ∙ vbr-zeros

  vbr-set_vbr :
      get_range (set_vbr lcaps rcaps hint chosen) k_vbr_supported ≡ to_num (varies lcaps rcaps hint)
  unfolding set_vbr
  vbr-set_vbr = ground (
    arith,
    vbr-chosen,
    get_range-set_range_self 6 chosen chosen-IsVector k_vbr_supported
        (to_num (
          not (get_range lcaps k_vbr_supported == 0) && not (get_range rcaps k_vbr_supported == 0)))
        (omega arith),
  )

  -- The bit rate is cut to the 23 bits of its field.
  pub layout-rates :
      (get_range layout k_vbr_supported ≡ to_num (varies lcaps rcaps hint))
      × (get_range layout k_bitrate ≡ select_bitrate lcaps hint % 2 ^ 23)
  unfolding finish
  layout-rates = (
    get_range-set_range_other 6 _ set_vbr-IsVector k_bitrate _ k_vbr_supported (omega arith)
          (inl (omega arith))
        ∙ vbr-set_vbr,
    get_range-set_range_self 6 _ set_vbr-IsVector k_bitrate _ (omega arith),
  )
