-- ===== src/A2dp/Bits/Laws.antt =====
-- Reading a bit after writing one (A2dpBits.h: `get(int)`, `set(int, int)`).
use device_phh_treble_doze.Base.{
  ℕ, zero, suc, ◌-◌, ◌*◌, ◌/◌, ◌%◌, ◌<◌, ◌≡◌, ◌≢◌, refl, Bool, true, false, not, List, length,
  get_or, ltb, ◌==◌, if◌then◌else◌, arith, All, All-set, All-get_or, length-set, get_or-set_self,
  get_or-set_ne, all_below, all_below_sound,
}
use device_phh_treble_doze.A2dp.Bits.{bit_at, get, set_byte, set_bit}

abbrev pub IsByte : ℕ → Type 0
IsByte x = x < 256

abbrev pub IsBytes : List ℕ → Type 0
IsBytes = All IsByte

-- Reading bit `j` of a byte in which bit `k` was written.
abbrev reads_back : ℕ → ℕ → ℕ → ℕ → Bool
reads_back v byte k j = bit_at (set_byte byte k v) j == (if j == k then v else bit_at byte j)

abbrev byte_test : ℕ → ℕ → Bool
byte_test v byte =
    if ltb (set_byte byte 7 v) 256
    then all_below 8
        (λ k. if ltb (set_byte byte k v) 256 then all_below 8 (reads_back v byte k) else false)
    else false

byte_table_clear : all_below 256 (byte_test 0) ≡ true
unfolding all_below set_byte
byte_table_clear = refl

byte_table_set : all_below 256 (byte_test 1) ≡ true
unfolding all_below set_byte
byte_table_set = refl

byte_test_lem :
    (v byte k j : ℕ)
    → all_below 256 (byte_test v) ≡ true
    → byte < 256
    → k < 8
    → j < 8
    → (set_byte byte k v < 256)
      × (bit_at (set_byte byte k v) j ≡ (if j == k then v else bit_at byte j))
byte_test_lem v byte k j table hb hk hj = ground (
  arith,
  all_below_sound 256 (byte_test v) byte table hb,
  all_below_sound 8
      (λ k. if ltb (set_byte byte k v) 256 then all_below 8 (reads_back v byte k) else false) k,
  all_below_sound 8 (reads_back v byte k) j,
)

set_byte_nonzero : (byte k v : ℕ) → v ≢ 0 → set_byte byte k v ≡ set_byte byte k 1
unfolding set_byte
set_byte_nonzero byte k v h = ground arith

pub set_byte_lem :
    (byte k j v : ℕ)
    → byte < 256
    → k < 8
    → j < 8
    → (set_byte byte k v < 256)
      × (bit_at (set_byte byte k v) j
          ≡ (if j == k then (if v == 0 then 0 else 1) else bit_at byte j))
set_byte_lem byte k j zero hb hk hj = byte_test_lem 0 byte k j byte_table_clear hb hk hj
set_byte_lem byte k j (suc v) hb hk hj =
    ground (arith, byte_test_lem 1 byte k j byte_table_set, set_byte_nonzero byte k (suc v))

module _ (bytes : List ℕ) (i v : ℕ) (bs : IsBytes bytes) where
  byte_at_lt : (n : ℕ) → get_or bytes n 0 < 256
  byte_at_lt n = All-get_or IsByte bytes n 0 bs (omega arith)

  pub set_bit-IsBytes : IsBytes (set_bit bytes i v)
  unfolding set_bit
  set_bit-IsBytes =
      All-set IsByte bytes (i / 8) _ bs
        (set_byte_lem (get_or bytes (i / 8) 0) (7 - i % 8) 0 v (byte_at_lt (i / 8)) (omega arith)
          (omega arith)).0

  -- Writing bit `i` changes that bit only, and a value other than 0 sets it.
  pub get-set_bit :
      (j : ℕ)
      → i < 8 * length bytes
      → get (set_bit bytes i v) j ≡ (if i == j then not (v == 0) else get bytes j)
  unfolding get set_bit
  get-set_bit j h = ground (
    arith,
    byte_at_lt (i / 8),
    set_byte_lem (get_or bytes (i / 8) 0) (7 - i % 8) (7 - j % 8) v,
    get_or-set_self bytes (i / 8) (set_byte (get_or bytes (i / 8) 0) (7 - i % 8) v) 0,
    get_or-set_ne bytes (i / 8) (j / 8) (set_byte (get_or bytes (i / 8) 0) (7 - i % 8) v) 0,
  )

pub length-set_bit : (bytes : List ℕ) (i v : ℕ) → length (set_bit bytes i v) ≡ length bytes
unfolding set_bit
length-set_bit bytes i v = length-set bytes (i / 8) _
