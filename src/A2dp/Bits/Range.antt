-- ===== src/A2dp/Bits/Range.antt =====
-- A range of bits as a number (A2dpBits.h: `get(const Range&)`, `set(const Range&, int)`).
use device_phh_treble_doze.Base.{
  ℕ, zero, suc, ◌+◌, ◌-◌, ◌*◌, ◌/◌, ◌%◌, ◌^◌, ◌≤◌, ◌<◌, ◌≡◌, refl, Bool, true, false, ◌&&◌, List,
  length, ltb, leb, ◌==◌, if◌then◌else◌, arith, ◌∙◌, ap, sym,
}
use device_phh_treble_doze.Base.{two_pow_suc, two_pow_pos, or_disjoint, bit_or}
use device_phh_treble_doze.A2dp.Bits.{
  BitRange, bit_at, to_num, get, get_loop, get_range, set_bit, set_loop, set_range,
}
use native.Mathlib.Nat.{div-add-mod, div-div-eq-div-mul, mul_comm}
use device_phh_treble_doze.A2dp.Bits.Laws.{IsBytes, set_bit-IsBytes, get-set_bit, length-set_bit}

-- The number that the bits `a` to `a + n - 1` spell, the first one the highest.
unfoldable pub num : (ℕ → Bool) → ℕ → ℕ → ℕ
num f a zero = 0
num f a (suc n) = to_num (f a) * 2 ^ n + num f (suc a) n

pub num-lt : (f : ℕ → Bool) (a n : ℕ) → num f a n < 2 ^ n
unfolding num
num-lt f a zero = omega arith
num-lt f a (suc n) = ground (arith, two_pow_suc n, num-lt f (suc a) n)

pub num_ext :
    (f g : ℕ → Bool) (a n : ℕ) → ((j : ℕ) → a ≤ j → j < a + n → f j ≡ g j) → num f a n ≡ num g a n
unfolding num
num_ext f g a zero h = refl
num_ext f g a (suc n) h = omega (
  arith,
  ap (λ (b : Bool). to_num b * 2 ^ n) (h a (omega arith) (omega arith)),
  num_ext f g (suc a) n (λ j p q. h j (omega arith) (omega arith)),
)

mod_two_pow_suc : (v n : ℕ) → v % 2 ^ suc n ≡ v / 2 ^ n % 2 * 2 ^ n + v % 2 ^ n
mod_two_pow_suc v n = omega (
  arith,
  ap (λ (t : ℕ). v % t) (two_pow_suc n),
  ap (λ (t : ℕ). v % t) (mul_comm 2 (2 ^ n)),
  div-add-mod v (2 ^ n),
  div-add-mod v (2 ^ n * 2),
  ap (λ (t : ℕ). 2 ^ n * 2 * t) (div-div-eq-div-mul v (2 ^ n) 2),
  ap (λ (t : ℕ). 2 ^ n * t) (div-add-mod (v / 2 ^ n) 2),
)

to_num-bit_at : (v k : ℕ) → to_num (bit_at v k == 1) ≡ bit_at v k
to_num-bit_at v k = ground arith

num_digits :
    (v : ℕ) (f : ℕ → Bool) (a n : ℕ)
    → ((j : ℕ) → a ≤ j → j < a + n → f j ≡ (bit_at v (a + n - 1 - j) == 1))
    → num f a n ≡ v % 2 ^ n
unfolding num
num_digits v f a zero h = omega arith
num_digits v f a (suc n) h = omega (
  arith,
  mod_two_pow_suc v n,
  ap (λ (t : ℕ). t * 2 ^ n)
      (ap to_num (h a (omega arith) (omega arith)) ∙ to_num-bit_at v (a + suc n - 1 - a)),
  ap (λ (t : ℕ). v / 2 ^ t % 2 * 2 ^ n) top,
  num_digits v f (suc a) n
      (λ j p q. h j (omega arith) (omega arith) ∙ ap (λ t. bit_at v t == 1) (omega arith)),
)
  where
    top : a + suc n - 1 - a ≡ n
    top = omega arith

get_loop-num :
    (bytes : List ℕ) (r : BitRange) (left i q : ℕ)
    → i + left ≡ r.len
    → get_loop bytes r left i (q * 2 ^ left) ≡ q * 2 ^ left + num (get bytes) (r.first + i) left
unfolding get_loop num
get_loop-num bytes r zero i q h = omega arith
get_loop-num bytes r (suc left) i q h =
    ap (get_loop bytes r left (i + 1)) next
    ∙ get_loop-num bytes r left (i + 1) (2 * q + b) (omega arith)
    ∙ omega (
      arith,
      two_pow_suc left,
      ap (λ (t : ℕ). q * t) (two_pow_suc left),
      ap (λ (t : ℕ). num (get bytes) t left) shift,
    )
  where
    b : ℕ
    b = to_num (get bytes (r.first + i))

    shift : r.first + (i + 1) ≡ suc (r.first + i)
    shift = omega arith

    below : b * 2 ^ left < 2 ^ suc left
    below = omega (arith, two_pow_suc left, two_pow_pos left, small (get bytes (r.first + i)))
      where
        small : (c : Bool) → to_num c * 2 ^ left ≤ 2 ^ left
        small true = omega arith
        small false = omega arith

    next : bit_or (q * 2 ^ suc left) (b * 2 ^ (r.len - 1 - i)) ≡ (2 * q + b) * 2 ^ left
    next =
        ap (λ t. bit_or (q * 2 ^ suc left) (b * 2 ^ t)) (omega arith)
        ∙ or_disjoint (suc left) q (b * 2 ^ left) below
        ∙ omega (arith, ap (λ (t : ℕ). q * t) (two_pow_suc left))

-- Reading a range gives the number that its bits spell.
pub get_range-num :
    (bytes : List ℕ) (r : BitRange) → get_range bytes r ≡ num (get bytes) r.first r.len
unfolding get_range
get_range-num bytes r = ground (arith, get_loop-num bytes r r.len 0 0)

set_loop-IsBytes :
    (r : BitRange) (v left i : ℕ) (bytes : List ℕ)
    → IsBytes bytes
    → IsBytes (set_loop r v left i bytes)
unfolding set_loop
set_loop-IsBytes r v zero i bytes h = h
set_loop-IsBytes r v (suc left) i bytes h =
    set_loop-IsBytes r v left (i + 1) _ (set_bit-IsBytes bytes (r.first + i) _ h)

length-set_loop :
    (r : BitRange) (v left i : ℕ) (bytes : List ℕ)
    → length (set_loop r v left i bytes) ≡ length bytes
unfolding set_loop
length-set_loop r v zero i bytes = refl
length-set_loop r v (suc left) i bytes =
    length-set_loop r v left (i + 1) _ ∙ length-set_bit bytes (r.first + i) _

get-set_loop :
    (r : BitRange) (v left i : ℕ) (bytes : List ℕ) (j : ℕ)
    → IsBytes bytes
    → i + left ≡ r.len
    → r.first + r.len ≤ 8 * length bytes
    → get (set_loop r v left i bytes) j ≡ (
        if leb (r.first + i) j && ltb j (r.first + r.len)
        then bit_at v (r.first + r.len - 1 - j) == 1
        else get bytes j)
unfolding set_loop
get-set_loop r v zero i bytes j bs e fits = ground arith
get-set_loop r v (suc left) i bytes j bs e fits = ground (
  arith,
  set_bit-IsBytes bytes (r.first + i) (bit_at v (r.len - 1 - i)) bs,
  length-set_bit bytes (r.first + i) (bit_at v (r.len - 1 - i)),
  get-set_bit bytes (r.first + i) (bit_at v (r.len - 1 - i)) bs j,
  get-set_loop r v left (i + 1) (set_bit bytes (r.first + i) (bit_at v (r.len - 1 - i))) j,
)

-- Ranges with the same bits read the same.
pub get_range_ext :
    (bytes other : List ℕ) (r : BitRange)
    → ((j : ℕ) → r.first ≤ j → j < r.first + r.len → get bytes j ≡ get other j)
    → get_range bytes r ≡ get_range other r
get_range_ext bytes other r h =
    get_range-num bytes r
    ∙ num_ext (get bytes) (get other) r.first r.len h
    ∙ sym (get_range-num other r)

module _ (bytes : List ℕ) (r : BitRange) (v : ℕ) where
  pub length-set_range : length (set_range bytes r v) ≡ length bytes
  unfolding set_range
  length-set_range = length-set_loop r v r.len 0 bytes

  pub set_range-IsBytes : IsBytes bytes → IsBytes (set_range bytes r v)
  unfolding set_range
  set_range-IsBytes = set_loop-IsBytes r v r.len 0 bytes

  -- Writing a number to a range changes the bits of the range only, to the digits of the number.
  pub get-set_range :
      (j : ℕ)
      → IsBytes bytes
      → r.first + r.len ≤ 8 * length bytes
      → get (set_range bytes r v) j ≡ (
          if leb r.first j && ltb j (r.first + r.len)
          then bit_at v (r.first + r.len - 1 - j) == 1
          else get bytes j)
  unfolding set_range
  get-set_range j bs fits = ground (arith, get-set_loop r v r.len 0 bytes j bs)

  -- A number that is written to a range within a vector of bytes is read back, cut to the range's
  -- length.
  pub get_range-set_range :
      IsBytes bytes
      → r.first + r.len ≤ 8 * length bytes
      → get_range (set_range bytes r v) r ≡ v % 2 ^ r.len
  get_range-set_range bs fits =
      get_range-num (set_range bytes r v) r
      ∙ num_digits v (get (set_range bytes r v)) r.first r.len
          (λ j p q. ground (arith, get-set_range j bs fits))
