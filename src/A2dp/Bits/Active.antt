-- ===== src/A2dp/Bits/Active.antt =====
-- `find_active_bit` of A2dpBits.h and the bits of its range.
use native.Mathlib.Nat.{mul-div_right, div_self}
use device_phh_treble_doze.Base.{
  ℕ, zero, suc, ◌+◌, ◌-◌, ◌*◌, ◌/◌, ◌^◌, ◌≤◌, ◌<◌, ◌≡◌, ◌↔◌, refl, Bool, true, false, List, some,
  ◌==◌, arith, ◌∙◌, ap, Bool-cases, inl, inr,
}
use device_phh_treble_doze.Base.{
  two_pow_suc, two_pow_pos, two_pow_add, two_pow_lt, xor-zero, xor_self,
}
use device_phh_treble_doze.A2dp.Bits.{
  BitRange, bit_at, to_num, get, get_range, scan, find_active_bit,
}
use device_phh_treble_doze.A2dp.Bits.Range.{num, num-lt, num_ext, get_range-num}

-- Bit `p` lies in the range, and is the only one that is set there.
pub record IsOnly (bytes : List ℕ) (r : BitRange) (p : ℕ) : Type 0 where
  pub above : r.first ≤ p
  pub below : p < r.first + r.len
  pub alone : (j : ℕ) → r.first ≤ j → j < r.first + r.len → get bytes j ≡ (j == p)

num-zero : (f : ℕ → Bool) (a n j : ℕ) → num f a n ≡ 0 → a ≤ j → j < a + n → f j ≡ false
unfolding num
num-zero f a zero j e p q = absurd (omega arith)
num-zero f a (suc n) j e p q = ground (arith, two_pow_pos n, num-zero f (suc a) n j)

num_of_false : (a n : ℕ) → num (λ _. false) a n ≡ 0
unfolding num
num_of_false a zero = refl
num_of_false a (suc n) = omega (arith, num_of_false (suc a) n)

only_of_num :
    (f : ℕ → Bool) (a n i j : ℕ)
    → i < n
    → num f a n ≡ 2 ^ i
    → a ≤ j
    → j < a + n
    → f j ≡ (j == a + n - 1 - i)
unfolding num
only_of_num f a zero i j h e p q = absurd (omega arith)
only_of_num f a (suc n) i j h e p q =
    ground (
      arith,
      two_pow_lt i n,
      num-lt f (suc a) n,
      num-zero f (suc a) n j,
      only_of_num f (suc a) n i j,
    )

num_of_only :
    (f : ℕ → Bool) (a n p : ℕ)
    → a ≤ p
    → p < a + n
    → ((j : ℕ) → a ≤ j → j < a + n → f j ≡ (j == p))
    → num f a n ≡ 2 ^ (a + n - 1 - p)
unfolding num
num_of_only f a zero p h k e = absurd (omega arith)
num_of_only f a (suc n) p h k e = elim (Bool-cases (a == p)) [
  | inl hit ↦ omega (
    arith,
    ap (λ b. to_num b * 2 ^ n) (e a (omega arith) (omega arith) ∙ hit),
    num_ext f (λ _. false) (suc a) n (λ j x y. ground (arith, e j)),
    num_of_false (suc a) n,
    ap (λ (t : ℕ). 2 ^ t) (top_hit hit),
  )
  | inr miss ↦ omega (
    arith,
    ap (λ b. to_num b * 2 ^ n) (e a (omega arith) (omega arith) ∙ miss),
    num_of_only f (suc a) n p (ground arith) (omega arith)
        (λ j x y. e j (omega arith) (omega arith)),
    ap (λ (t : ℕ). 2 ^ t) top_miss,
  )
]
  where
    top_hit : (a == p) ≡ true → a + suc n - 1 - p ≡ n
    top_hit hit = ground arith

    top_miss : a + suc n - 1 - p ≡ suc a + n - 1 - p
    top_miss = omega arith

bit_at_power_below : (i d : ℕ) → bit_at (2 ^ (i + suc d)) i ≡ 0
bit_at_power_below i d = omega (
  arith,
  ap (λ (t : ℕ). t / 2 ^ i) (two_pow_add i (suc d)),
  mul-div_right (2 ^ suc d) (two_pow_pos i),
  two_pow_suc d,
)

bit_at_power_self : (k : ℕ) → bit_at (2 ^ k) k ≡ 1
bit_at_power_self k = omega (arith, div_self (two_pow_pos k))

scan_power : (k left i : ℕ) → i ≤ k → k < i + left → scan (2 ^ k) left i ≡ k
unfolding scan
scan_power k zero i h l = absurd (omega arith)
scan_power k (suc left) i h l = elim (Bool-cases (i == k)) [
  | inl hit ↦ ground (arith, bit_at_power_self k)
  | inr miss ↦ ground (arith, zero_here, scan_power k left (i + 1))
]
  where
    zero_here : (i == k) ≡ false → bit_at (2 ^ k) i ≡ 0
    zero_here miss =
        ap (λ (t : ℕ). bit_at (2 ^ t) i) (ground arith) ∙ bit_at_power_below i (k - i - 1)

module _ (bytes : List ℕ) (r : BitRange) (p : ℕ) where
  active-IsOnly : find_active_bit bytes r ≡ some p → IsOnly bytes r p
  unfolding find_active_bit
  active-IsOnly e = record {
    above = ground arith;
    below = ground arith;
    alone = λ j x y. ground (
      arith,
      get_range-num bytes r,
      xor-zero (get_range bytes r) (2 ^ scan (get_range bytes r) r.len 0),
      only_of_num (get bytes) r.first r.len (scan (get_range bytes r) r.len 0) j,
    );
  }

  IsOnly-active : IsOnly bytes r p → find_active_bit bytes r ≡ some p
  unfolding find_active_bit
  IsOnly-active o = ground (
    arith,
    get_range-num bytes r,
    num_of_only (get bytes) r.first r.len p o.above o.below o.alone,
    scan_power (r.first + r.len - 1 - p) r.len 0,
    xor_self (2 ^ (r.first + r.len - 1 - p)),
  )

-- In any range of a vector, `find_active_bit` returns a bit exactly when it is the only one set.
pub find_active_bit_iff :
    (bytes : List ℕ) (r : BitRange) (p : ℕ) → (find_active_bit bytes r ≡ some p) ↔ IsOnly bytes r p
find_active_bit_iff bytes r p = (active-IsOnly bytes r p, IsOnly-active bytes r p)
