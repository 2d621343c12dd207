-- ===== src/Base/Words.antt =====
-- Laws of `|` and `^` at every width, from the digit recursion that the native operations stand
-- for, and of powers of two.
use Prim.Native.Nat.{ℕ, zero, suc, ◌+◌, ◌*◌, ◌/◌, ◌%◌, ◌^◌, ◌≤◌, ◌<◌, max}
use Prim.Native.Nat.{bit_or, bit_xor, differ, digits, bitwise, bit_or-bitwise, bit_xor-bitwise}
use mathlib.Core.Path.{◌≡◌, refl, ap, sym}
use native.Mathlib.Nat.{pow-suc, one-le-pow, pow-le-pow_right, zero-add, suc-add}
use native.Mathlib.Omega.{arith}

-- Twice a power is the next one, and the steps of the laws below.
pub two_pow_suc : (k : ℕ) → 2 ^ suc k ≡ 2 * 2 ^ k
two_pow_suc k = omega (arith, pow-suc 2 k)

pub two_pow_pos : (k : ℕ) → 0 < 2 ^ k
two_pow_pos k = one-le-pow k 2 (omega arith)

pub two_pow_add : (i d : ℕ) → 2 ^ (i + d) ≡ 2 ^ i * 2 ^ d
two_pow_add zero d = omega (arith, ap (λ (t : ℕ). 2 ^ t) (zero-add d))
two_pow_add (suc i) d = omega (
  arith,
  ap (λ (t : ℕ). 2 ^ t) (suc-add i d),
  two_pow_suc (i + d),
  two_pow_add i d,
  ap (λ (t : ℕ). t * 2 ^ d) (two_pow_suc i),
)

pub two_pow_lt : (i k : ℕ) → i < k → 2 ^ i < 2 ^ k
two_pow_lt i k h = omega (
  arith,
  two_pow_pos i,
  two_pow_suc i,
  pow-le-pow_right {n = 2} (omega arith) {i = suc i} {j = k} h,
)

-- Fuel beyond the first argument makes no difference.
module _ (z : ℕ → ℕ) (f : ℕ → ℕ → ℕ) where
  digits_enough : (n m a b : ℕ) → a ≤ n → a ≤ m → digits z f n a b ≡ digits z f m a b
  digits_enough zero zero zero b p q = refl
  digits_enough zero (suc m) zero b p q = refl
  digits_enough (suc n) zero zero b p q = refl
  digits_enough (suc n) (suc m) zero b p q = refl
  digits_enough zero _ (suc a) b p q = absurd (omega arith)
  digits_enough (suc n) zero (suc a) b p q = absurd (omega arith)
  digits_enough (suc n) (suc m) (suc a) b p q =
      ap (λ t. t * 2 + f (suc a % 2) (b % 2))
        (digits_enough n m (suc a / 2) (b / 2) (omega arith) (omega arith))

  lowest_digit :
      (a b : ℕ)
      → bitwise z f (suc a) b ≡ bitwise z f (suc a / 2) (b / 2) * 2 + f (suc a % 2) (b % 2)
  lowest_digit a b =
      ap (λ t. t * 2 + f (suc a % 2) (b % 2))
        (digits_enough a (suc a / 2) (suc a / 2) (b / 2) (omega arith) (omega arith))

or_digit : (a b : ℕ) → bit_or a b ≡ bit_or (a / 2) (b / 2) * 2 + max (a % 2) (b % 2)
or_digit zero b = omega (arith, bit_or-bitwise 0 b, bit_or-bitwise 0 (b / 2))
or_digit (suc a) b = omega (
  arith,
  bit_or-bitwise (suc a) b,
  bit_or-bitwise (suc a / 2) (b / 2),
  lowest_digit (λ y. y) max a b,
)

xor_digit : (a b : ℕ) → bit_xor a b ≡ bit_xor (a / 2) (b / 2) * 2 + differ (a % 2) (b % 2)
xor_digit zero b = omega (arith, bit_xor-bitwise 0 b, bit_xor-bitwise 0 (b / 2))
xor_digit (suc a) b = omega (
  arith,
  bit_xor-bitwise (suc a) b,
  bit_xor-bitwise (suc a / 2) (b / 2),
  lowest_digit (λ y. y) differ a b,
)

or-zero_below : (n a : ℕ) → a ≤ n → bit_or a 0 ≡ a
or-zero_below zero zero h = refl
or-zero_below zero (suc a) h = absurd (omega arith)
or-zero_below (suc n) zero h = refl
or-zero_below (suc n) (suc a) h =
    omega (arith, or_digit (suc a) 0, or-zero_below n (suc a / 2) (omega arith))

-- `(q << k) | r` is a sum when `r` fits in `k` bits.
pub or_disjoint : (k q r : ℕ) → r < 2 ^ k → bit_or (q * 2 ^ k) r ≡ q * 2 ^ k + r
or_disjoint zero q r h = ground (arith, or-zero_below q q)
or_disjoint (suc k) q r h = ground (
  arith,
  or_digit (q * 2 ^ suc k) r,
  ap (λ (t : ℕ). q * t) (two_pow_suc k),
  or_disjoint k q (r / 2),
)

differ-zero : (x y : ℕ) → x < 2 → y < 2 → differ x y ≡ 0 → x ≡ y
differ-zero zero y hx hy e = sym e
differ-zero (suc x) zero hx hy e = e
differ-zero (suc x) (suc y) hx hy e = omega arith

xor-zero_below : (n a b : ℕ) → a ≤ n → bit_xor a b ≡ 0 → a ≡ b
xor-zero_below zero zero b h e = omega (arith, bit_xor-bitwise 0 b)
xor-zero_below zero (suc a) b h e = absurd (omega arith)
xor-zero_below (suc n) zero b h e = omega (arith, bit_xor-bitwise 0 b)
xor-zero_below (suc n) (suc a) b h e = ground (
  arith,
  xor_digit (suc a) b,
  xor-zero_below n (suc a / 2) (b / 2),
  differ-zero (suc a % 2) (b % 2),
)

-- `a ^ b` is 0 for equal numbers only.
pub xor-zero : (a b : ℕ) → bit_xor a b ≡ 0 → a ≡ b
xor-zero a b = xor-zero_below a a b (omega arith)

xor_self_below : (n a : ℕ) → a ≤ n → bit_xor a a ≡ 0
xor_self_below zero zero h = refl
xor_self_below zero (suc a) h = absurd (omega arith)
xor_self_below (suc n) zero h = refl
xor_self_below (suc n) (suc a) h = omega (
  arith,
  xor_digit (suc a) (suc a),
  differ_self (suc a % 2),
  xor_self_below n (suc a / 2) (omega arith),
)
  where
    differ_self : (x : ℕ) → x < 2 → differ x x ≡ 0
    differ_self zero _ = refl
    differ_self (suc zero) _ = refl
    differ_self (suc (suc x)) k = absurd (omega arith)

pub xor_self : (a : ℕ) → bit_xor a a ≡ 0
xor_self a = xor_self_below a a (omega arith)
