-- ===== src/A2dp/Codec/Setup.antt =====
-- How the codecs' constructors fill in their information.
use device_phh_treble_doze.Base.{ℕ, Bool, List, [], ◌∷◌, Option, none, some, if◌then◌else◌}
use device_phh_treble_doze.A2dp.Bits.{get, set_bit, to_num}

-- `capabilities.set(bit, kEnable…)`, for each bit in its order.
unfoldable pub set_enabled : List (ℕ × Bool) → List ℕ → List ℕ
set_enabled [] caps = caps
set_enabled ((bit, enable) ∷ bits) caps = set_enabled bits (set_bit caps bit (to_num enable))

-- The loop that pushes back each value whose bit is set; every value of the loops has a bit.
unfoldable pub supported {ℓ} : {A : Type ℓ} → (A → Option ℕ) → List ℕ → List A → List A
supported bit_of caps [] = []
supported bit_of caps (v ∷ vs) =
    let rest = supported bit_of caps vs in
    elim (bit_of v) [ none ↦ rest | some b ↦ if get caps b then v ∷ rest else rest ]
