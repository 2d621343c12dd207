-- ===== src/A2dp/Bits/Fields.antt =====
-- Vectors of a known size in which a codec sets bits one by one (A2dpBits.h: `set`).
use device_phh_treble_doze.Base.{
  ℕ, zero, suc, ◌+◌, ◌*◌, ◌≤◌, ◌<◌, ◌%◌, ◌^◌, ◌≡◌, refl, ◌∙◌, Bool, false, ◌||◌, List, [], ◌∷◌,
  some, ◌==◌, ◌⊎◌, length, replicate, All, arith, length-replicate, ◌-◌,
}
use device_phh_treble_doze.A2dp.Bits.{BitRange, get, set_bit, get_range, set_range, find_active_bit}
use device_phh_treble_doze.A2dp.Bits.Laws.{IsBytes, get-set_bit, set_bit-IsBytes, length-set_bit}
use device_phh_treble_doze.A2dp.Bits.Range.{
  get-set_range, get_range-set_range, set_range-IsBytes, length-set_range, get_range_ext,
}
use device_phh_treble_doze.A2dp.Bits.Active.{find_active_bit_iff}

abbrev pub Within : ℕ → ℕ → ℕ → Type 0
Within lo hi b = (lo ≤ b) × (b ≤ hi)

-- A vector of `n` bytes.
pub record IsVector (n : ℕ) (bytes : List ℕ) : Type 0 where
  pub size : length bytes ≡ n
  pub bytes_of : IsBytes bytes

zeros-IsBytes : (n : ℕ) → IsBytes (replicate n 0)
zeros-IsBytes zero = tt
zeros-IsBytes (suc n) = (omega arith, zeros-IsBytes n)

pub zeros-IsVector : (n : ℕ) → IsVector n (replicate n 0)
zeros-IsVector n = record { size = length-replicate n 0; bytes_of = zeros-IsBytes n }

pub set_bit-IsVector :
    (n : ℕ) (bytes : List ℕ) (b v : ℕ) → IsVector n bytes → IsVector n (set_bit bytes b v)
set_bit-IsVector n bytes b v h = record {
  size = length-set_bit bytes b v ∙ h.size;
  bytes_of = set_bit-IsBytes bytes b v h.bytes_of;
}

pub set_range-IsVector :
    (n : ℕ) (bytes : List ℕ) (r : BitRange) (v : ℕ)
    → IsVector n bytes
    → IsVector n (set_range bytes r v)
set_range-IsVector n bytes r v h = record {
  size = length-set_range bytes r v ∙ h.size;
  bytes_of = set_range-IsBytes bytes r v h.bytes_of;
}

-- `set(b)` for each bit of a list.
abbrev pub set_bits : List ℕ → List ℕ → List ℕ
set_bits [] bytes = bytes
set_bits (b ∷ bs) bytes = set_bits bs (set_bit bytes b 1)

abbrev pub has_bit : List ℕ → ℕ → Bool
has_bit [] j = false
has_bit (b ∷ bs) j = b == j || has_bit bs j

pub set_bits-IsVector :
    (n : ℕ) (bs bytes : List ℕ) → IsVector n bytes → IsVector n (set_bits bs bytes)
set_bits-IsVector n [] bytes h = h
set_bits-IsVector n (b ∷ bs) bytes h =
    set_bits-IsVector n bs (set_bit bytes b 1) (set_bit-IsVector n bytes b 1 h)

pub get-set_bits :
    (n : ℕ) (bs bytes : List ℕ) (j : ℕ)
    → IsVector n bytes
    → All (λ b. b < 8 * n) bs
    → get (set_bits bs bytes) j ≡ (has_bit bs j || get bytes j)
get-set_bits n [] bytes j h inside = refl
get-set_bits n (b ∷ bs) bytes j h inside = ground (
  arith,
  get-set_bit bytes b 1 h.bytes_of j,
  get-set_bits n bs (set_bit bytes b 1) j (set_bit-IsVector n bytes b 1 h) inside.1,
)

-- A range in which the bits of `bytes` are those of a list with one member there.
pub active_of_list :
    (bytes : List ℕ) (r : BitRange) (bs : List ℕ) (p : ℕ)
    → ((j : ℕ) → r.first ≤ j → j < r.first + r.len → get bytes j ≡ has_bit bs j)
    → ((j : ℕ) → r.first ≤ j → j < r.first + r.len → has_bit bs j ≡ (j == p))
    → Within r.first (r.first + r.len - 1) p
    → 0 < r.len
    → find_active_bit bytes r ≡ some p
active_of_list bytes r bs p same one within pos =
    (find_active_bit_iff bytes r p).1
      (record { above = within.0; below = omega arith; alone = λ j x y. same j x y ∙ one j x y })

module _ (n : ℕ) (bytes : List ℕ) (v : IsVector n bytes) (r : BitRange) (x : ℕ) where
  -- A bit outside the range that is written.
  pub get-set_range_other :
      (j : ℕ)
      → r.first + r.len ≤ 8 * n
      → (j < r.first) ⊎ (r.first + r.len ≤ j)
      → get (set_range bytes r x) j ≡ get bytes j
  get-set_range_other j fits out = ground (arith, get-set_range bytes r x j v.bytes_of, v.size)

  -- A range apart from the one that is written.
  pub get_range-set_range_other :
      (q : BitRange)
      → r.first + r.len ≤ 8 * n
      → (q.first + q.len ≤ r.first) ⊎ (r.first + r.len ≤ q.first)
      → get_range (set_range bytes r x) q ≡ get_range bytes q
  get_range-set_range_other q fits apart =
      get_range_ext (set_range bytes r x) bytes q
        λ j above below. get-set_range_other j fits (omega arith)

  pub get_range-set_range_self :
      r.first + r.len ≤ 8 * n → get_range (set_range bytes r x) r ≡ x % 2 ^ r.len
  get_range-set_range_self fits = get_range-set_range bytes r x v.bytes_of (ground (arith, v.size))
