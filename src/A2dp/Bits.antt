-- ===== src/A2dp/Bits.antt =====
-- bluetooth/audio/hal/A2dpBits.h: bit fields of a byte vector, the most significant bit first.
-- A vector is the list of its bytes. The codecs read and write within their vectors only; past the
-- end, which C++ leaves undefined, this model reads 0 and writes nothing.
pub mod Laws
pub mod Range
pub mod Active
pub mod Fields
use device_phh_treble_doze.Base.{
  ℕ, zero, suc, ◌+◌, ◌-◌, ◌*◌, ◌/◌, ◌%◌, ◌^◌, bit_and, bit_or, bit_xor, Bool, true, false, Option,
  none, some, List, ltb, ◌&&◌, ◌==◌, if◌then◌else◌, length, get_or, set,
}

-- `Range(first, last)` and `Range(index)`.
pub record BitRange : Type 0 where
  pub first : ℕ
  pub len : ℕ

abbrev pub range : ℕ → ℕ → BitRange
range first last = record { first = first; len = last + 1 - first }

abbrev pub single : ℕ → BitRange
single index = record { first = index; len = 1 }

-- Bit `k` of a number, counted from the lowest: `(x >> k) & 1`.
abbrev pub bit_at : ℕ → ℕ → ℕ
bit_at x k = x / 2 ^ k % 2

abbrev pub to_num : Bool → ℕ
to_num true = 1
to_num false = 0

-- `get(int bit)`: the shift `bit >> 3` is `/ 8`, and `bit & 7` is `% 8`.
unfoldable pub get : List ℕ → ℕ → Bool
get bytes i = bit_at (get_or bytes (i / 8) 0) (7 - i % 8) == 1

-- The loop of `get(const Range&)` at index `i`, with `left` rounds left.
unfoldable pub get_loop : List ℕ → BitRange → ℕ → ℕ → ℕ → ℕ
get_loop bytes r zero i v = v
get_loop bytes r (suc left) i v =
    get_loop bytes r left (i + 1)
      (bit_or v (to_num (get bytes (r.first + i)) * 2 ^ (r.len - 1 - i)))

unfoldable pub get_range : List ℕ → BitRange → ℕ
unfolding get_loop
get_range bytes r = get_loop bytes r r.len 0 0

-- What `set(int bit, int value)` leaves in the byte; `~m` is cut to 8 bits by the store.
unfoldable pub set_byte : ℕ → ℕ → ℕ → ℕ
set_byte byte k value = if value == 0 then bit_and byte (255 - 2 ^ k) else bit_or byte (2 ^ k)

unfoldable pub set_bit : List ℕ → ℕ → ℕ → List ℕ
unfolding set_byte
set_bit bytes i value = set bytes (i / 8) (set_byte (get_or bytes (i / 8) 0) (7 - i % 8) value)

-- The loop of `set(const Range&, int value)`; the values stored are not negative.
unfoldable pub set_loop : BitRange → ℕ → ℕ → ℕ → List ℕ → List ℕ
set_loop r value zero i bytes = bytes
set_loop r value (suc left) i bytes =
    set_loop r value left (i + 1) (set_bit bytes (r.first + i) (bit_at value (r.len - 1 - i)))

unfoldable pub set_range : List ℕ → BitRange → ℕ → List ℕ
unfolding set_loop set_bit
set_range bytes r value = set_loop r value r.len 0 bytes

-- The `for` loop of `find_active_bit`: the lowest bit that is set, or the length of the range.
unfoldable pub scan : ℕ → ℕ → ℕ → ℕ
scan v zero i = i
scan v (suc left) i = let rest = scan v left (i + 1) in if bit_at v i == 0 then rest else i

-- The only set bit of a range; `none` is the -1 of the source.
unfoldable pub find_active_bit : List ℕ → BitRange → Option ℕ
unfolding get_range scan
find_active_bit bytes r =
    let v = get_range bytes r in
    let i = scan v r.len 0 in
    if ltb i r.len && bit_xor v (2 ^ i) == 0 then some (r.first + (r.len - 1) - i) else none
