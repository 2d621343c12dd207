-- ===== src/A2dp/Codec/Building.antt =====
-- How the codecs' `BuildConfiguration` proceeds: each part sets one bit that both sides support, or
-- returns false.
use device_phh_treble_doze.Base.{
  ℕ, ◌≡◌, refl, true, false, List, [], ◌∷◌, Option, none, some, ◌&&◌, if◌then◌else◌, All, arith,
  replicate, get_or, zero, suc, Bool-cases, inl, inr, subst, ◌/◌,
}
use device_phh_treble_doze.A2dp.Bits.{get, set_bit}

-- The vector behind the `configuration` pointer, at a return of true or of false.
pub data Building : Type 0 where
  built refused : List ℕ → Building

infixl 5 ◌>>=◌
abbrev pub ◌>>=◌ : Building → (List ℕ → Building) → Building
built c >>= f = f c
refused c >>= f = refused c

-- The chain `if (lcaps.get(b) && rcaps.get(b)) … else if …` over the bits in their order.
unfoldable pub choose : List ℕ → List ℕ → List ℕ → Option ℕ
choose lcaps rcaps [] = none
choose lcaps rcaps (b ∷ bs) = if get lcaps b && get rcaps b then some b else choose lcaps rcaps bs

-- `config.set(b)` for the chosen bit, and `return false` where the chain ends.
unfoldable pub set_chosen : Option ℕ → List ℕ → Building
set_chosen none config = refused config
set_chosen (some b) config = built (set_bit config b 1)

-- The test `hint_bit >= 0 && …` in front of a chain: the bit of the hint comes first.
abbrev pub hinted : Option ℕ → List ℕ → List ℕ
hinted none bs = bs
hinted (some b) bs = b ∷ bs

-- Both sides support the bit.
abbrev pub IsShared : List ℕ → List ℕ → ℕ → Type 0
IsShared lcaps rcaps b = (get lcaps b ≡ true) × (get rcaps b ≡ true)

pub choose-IsShared :
    (lcaps rcaps bs : List ℕ) (b : ℕ) → choose lcaps rcaps bs ≡ some b → IsShared lcaps rcaps b
unfolding choose
choose-IsShared lcaps rcaps [] b e = absurd (ground arith)
choose-IsShared lcaps rcaps (x ∷ bs) b e = ground (arith, choose-IsShared lcaps rcaps bs b)

choose-head :
    (lcaps rcaps bs : List ℕ) (x b : ℕ)
    → (get lcaps x && get rcaps x) ≡ true
    → choose lcaps rcaps (x ∷ bs) ≡ some b
    → x ≡ b
unfolding choose
choose-head lcaps rcaps bs x b here e = ground arith

-- What every candidate has, the choice has.
pub choose-All :
    (P : ℕ → Type 0) (lcaps rcaps bs : List ℕ) (b : ℕ)
    → All P bs
    → choose lcaps rcaps bs ≡ some b
    → P b
unfolding choose
choose-All P lcaps rcaps [] b h e = absurd (ground arith)
choose-All P lcaps rcaps (x ∷ bs) b h e = elim (Bool-cases (get lcaps x && get rcaps x)) [
  | inl here ↦ subst P (choose-head lcaps rcaps bs x b here e) h.0
  | inr on ↦ choose-All P lcaps rcaps bs b h.1 (ground arith)
]

-- A part that does not refuse has chosen a bit.
pub set_chosen-built :
    (o : Option ℕ) (config c : List ℕ)
    → set_chosen o config ≡ built c
    → (b : ℕ) × (o ≡ some b) × (c ≡ set_bit config b 1)
unfolding set_chosen
set_chosen-built none config c e = absurd (ground arith)
set_chosen-built (some b) config c e = (b, refl, ground arith)

get_or-zeros : (n i : ℕ) → get_or {A = ℕ} (replicate n 0) i 0 ≡ 0
get_or-zeros zero i = refl
get_or-zeros (suc n) zero = refl
get_or-zeros (suc n) (suc i) = get_or-zeros n i

pub get-zeros : (n j : ℕ) → get (replicate n 0) j ≡ false
unfolding get
get-zeros n j = ground (arith, get_or-zeros n (j / 8))

-- A chain that does not refuse went through each of its parts.
pub >>=-built :
    (m : Building) (f : List ℕ → Building) (c : List ℕ)
    → (m >>= f) ≡ built c
    → (a : List ℕ) × (m ≡ built a) × (f a ≡ built c)
>>=-built (built a) f c e = (a, refl, e)
>>=-built (refused a) f c e = absurd (ground arith)

-- A part after a chain: the bit that it has chosen.
pub >>=-set_chosen :
    (m : Building) (o : Option ℕ) (c : List ℕ)
    → (m >>= set_chosen o) ≡ built c
    → (a : List ℕ) × (m ≡ built a) × ((b : ℕ) × (o ≡ some b) × (c ≡ set_bit a b 1))
>>=-set_chosen m o c e =
    let (a, start, part) = >>=-built m (set_chosen o) c e in (a, start, set_chosen-built o a c part)
