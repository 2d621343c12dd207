-- ===== src/A2dp/Sbc/Bitpool.antt =====
-- The binary search of `GetBitpool` in A2dpOffloadCodecSbc.cpp.
use device_phh_treble_doze.Base.{
  ℕ, ℤ, pos, negsuc, zero, suc, ◌+◌, ◌/◌, ◌^◌, ◌≤◌, ◌<◌, ◌≡◌, true, false, List, leb, int_ltb,
  arith, two_pow_suc, Bool-cases, inl, inr,
}
use device_phh_treble_doze.A2dp.Bits.{get, to_num}
use native.Mathlib.Nat.{
  mul-le-mul_left, mul-le-mul_right, div-zero, le-div_iff_mul-le, div-mul-le_self, le_trans,
}
use device_phh_treble_doze.A2dp.Sbc.Format.{
  k_channel_mode_dual_channel, config_sampling_frequency, config_block_length,
}
use device_phh_treble_doze.A2dp.Sbc.Rate.{get_frame_size, get_bitrate, bitpool_loop, get_bitpool}

abbrev IsGrowing : (ℕ → ℕ) → Type 0
IsGrowing f = (a b : ℕ) → a ≤ b → f a ≤ f b

int_ltb_mono : (a b : ℕ) (x : ℤ) → a ≤ b → int_ltb (pos b) x ≡ true → int_ltb (pos a) x ≡ true
int_ltb_mono a b (pos x) h e = ground arith
int_ltb_mono a b (negsuc x) h e = e

-- After the rounds from `2 ^ (k - 1)` down, the result separates the range searched.
record Separates (rate : ℕ → ℕ) (bitrate : ℤ) (k p q : ℕ) : Type 0 where
  from : p ≤ q
  upto : q < p + 2 ^ k
  splits : (b : ℕ) → p < b → b < p + 2 ^ k → leb b q ≡ int_ltb (pos (rate b)) bitrate

module _ (rate : ℕ → ℕ) (grows : IsGrowing rate) (bitrate : ℤ) where
  take_upper :
      (k p q : ℕ)
      → int_ltb (pos (rate (p + 2 ^ k))) bitrate ≡ true
      → Separates rate bitrate k (p + 2 ^ k) q
      → Separates rate bitrate (suc k) p q
  take_upper k p q hit h = record {
    from = omega (arith, h.from);
    upto = omega (arith, h.upto, two_pow_suc k);
    splits = λ b x y. ground (
      arith,
      two_pow_suc k,
      h.from,
      h.splits b,
      grows b (p + 2 ^ k),
      int_ltb_mono (rate b) (rate (p + 2 ^ k)) bitrate,
    );
  }

  take_lower :
      (k p q : ℕ)
      → int_ltb (pos (rate (p + 2 ^ k))) bitrate ≡ false
      → Separates rate bitrate k p q
      → Separates rate bitrate (suc k) p q
  take_lower k p q miss h = record {
    from = h.from;
    upto = omega (arith, h.upto, two_pow_suc k);
    splits = λ b x y. ground (
      arith,
      two_pow_suc k,
      h.upto,
      h.splits b,
      grows (p + 2 ^ k) b,
      int_ltb_mono (rate (p + 2 ^ k)) (rate b) bitrate,
    );
  }

  bitpool_loop-Separates : (k p : ℕ) → Separates rate bitrate k p (bitpool_loop rate bitrate k p)
  unfolding bitpool_loop
  bitpool_loop-Separates zero p = record {
    from = omega arith;
    upto = omega arith;
    splits = λ b x y. absurd (omega arith);
  }
  bitpool_loop-Separates (suc k) p = elim (Bool-cases (int_ltb (pos (rate (p + 2 ^ k))) bitrate)) [
    | inl hit ↦ rw hit (take_upper k p _ hit (bitpool_loop-Separates k (p + 2 ^ k)))
    | inr miss ↦ rw miss (take_lower k p _ miss (bitpool_loop-Separates k p))
  ]

  -- The loop of `GetBitpool` finds, for every bitpool of 8 bits but 0, whether its rate lies below
  -- the wanted one.
  bitpool_loop_splits :
      (b : ℕ)
      → 0 < b
      → b < 256
      → leb b (bitpool_loop rate bitrate 8 0) ≡ int_ltb (pos (rate b)) bitrate
  bitpool_loop_splits b h below = (bitpool_loop-Separates 8 0).splits b (omega arith) (omega arith)

div_mono : (d x y : ℕ) → x ≤ y → x / d ≤ y / d
div_mono zero x y h = omega (arith, div-zero x)
div_mono (suc d) x y h =
    (le-div_iff_mul-le (omega arith)).1 (le_trans (div-mul-le_self x (suc d)) h)

-- The rate of a configuration grows with the bitpool.
get_frame_size_mono : (config : List ℕ) → IsGrowing (get_frame_size config)
unfolding get_frame_size
get_frame_size_mono config a b h = omega (
  arith,
  mul-le-mul_right (2 ^ to_num (get config k_channel_mode_dual_channel))
      (mul-le-mul_left (config_block_length config) h),
)

get_bitrate_mono : (config : List ℕ) → IsGrowing (get_bitrate config)
unfolding get_bitrate
get_bitrate_mono config a b h = div_mono _ _ _ (
    mul-le-mul_right (config_sampling_frequency config)
      (mul-le-mul_left 8 (get_frame_size_mono config a b h)))

-- The bitpool that `GetBitpool` returns is from 2 to 250, and each bitpool from 3 to 250 is at most
-- that one exactly when its bit rate in the configuration lies below the wanted bit rate.
pub get_bitpool_lem :
    (config : List ℕ) (bitrate : ℤ) (b : ℕ)
    → 2 < b
    → b ≤ 250
    → (2 ≤ get_bitpool config bitrate)
      × (get_bitpool config bitrate ≤ 250)
      × (leb b (get_bitpool config bitrate) ≡ int_ltb (pos (get_bitrate config b)) bitrate)
unfolding get_bitpool
get_bitpool_lem config bitrate b low high = (
  omega arith,
  omega arith,
  ground (arith, bitpool_loop_splits (get_bitrate config) (get_bitrate_mono config) bitrate b),
)
