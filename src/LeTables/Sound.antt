-- ===== src/LeTables/Sound.antt =====
-- The capabilities that BluetoothLeAudioCodecsProvider.cpp offers come from valid entries of its file.
use device_phh_treble_doze.Base.{
  ℕ, ◌≡◌, ◌⊎◌, inl, inr, refl, subst, Bool-cases, arith, Bool, true, false, List, [], ◌∷◌, Option,
  none, some, ◌==◌, if◌then◌else◌,
}
use device_phh_treble_doze.LeTables.Settings.{
  CodecConfiguration, StrategyConfiguration, Setting, Configuration, value, Map, find_name,
  insert_name, update_from, update_map, is_valid_codec_configuration,
  is_valid_strategy_configuration,
}
use device_phh_treble_doze.LeTables.Compose.{Maps, find_parts, ◌>>=◌}
use device_phh_treble_doze.LeTables.Provider.{Tables, load_configuration_to_map}

abbrev pub Listed : {A : Type 0} → A → List A → Type 0
Listed a [] = ⊥
Listed a (x ∷ xs) = (x ≡ a) ⊎ Listed a xs

-- An entry of one of the lists.
abbrev pub ListedIn : {A : Type 0} → A → List (List A) → Type 0
ListedIn a [] = ⊥
ListedIn a (xs ∷ xss) = Listed a xs ⊎ ListedIn a xss

-- Every value of a map has a property.
abbrev pub Holds : {A : Type 0} → (A → Type 0) → Map A → Type 0
Holds P map = (n : ℕ) (a : _) → find_name map n ≡ some a → P a

find-insert :
    {A : Type 0} (n : ℕ) (a : A) (map : Map A) (m : ℕ) (b : A)
    → find_name (insert_name n a map) m ≡ some b
    → (a ≡ b) ⊎ (find_name map m ≡ some b)
unfolding insert_name find_name
find-insert n a map m b e = ground arith

module _ {A : Type 0} (P : A → Type 0) (valid : A → Bool) (name_of : A → Option ℕ) where
  insert-Holds : (n : ℕ) (a : A) (map : Map A) → P a → Holds P map → Holds P (insert_name n a map)
  insert-Holds n a map p h m b e = elim (find-insert n a map m b e) [
    | inl same ↦ subst P same p
    | inr old ↦ h m b old
  ]

  keep-Holds :
      (n : ℕ) (a : A) (map : Map A)
      → (valid a ≡ true → P a)
      → Holds P map
      → Holds P (if valid a then insert_name n a map else map)
  keep-Holds n a map p h = elim (Bool-cases (valid a)) [
    | inl is_valid ↦ rw is_valid (insert-Holds n a map (p is_valid) h)
    | inr invalid ↦ rw invalid h
  ]

  update_from-Holds :
      (xs : List A) (map : Map A)
      → ((a : A) → Listed a xs → valid a ≡ true → P a)
      → Holds P map
      → Holds P (update_from valid name_of xs map)
  unfolding update_from
  update_from-Holds [] map p h = h
  update_from-Holds (x ∷ xs) map p h =
      update_from-Holds xs (if valid x then insert_name (value 0 (name_of x)) x map else map)
        (λ a l. p a (inr l)) (keep-Holds (value 0 (name_of x)) x map (p x (inl refl)) h)

  update_map-Holds :
      (xss : List (List A)) (map : Map A)
      → ((a : A) → ListedIn a xss → valid a ≡ true → P a)
      → Holds P map
      → Holds P (update_map valid name_of xss map)
  unfolding update_map
  update_map-Holds [] map p h = h
  update_map-Holds (xs ∷ xss) map p h =
      update_map-Holds xss (update_from valid name_of xs map) (λ a l. p a (inr l))
        (update_from-Holds xs map (λ a l. p a (inl l)) h)

-- The valid entries of a file.
abbrev pub IsCodec : Setting → CodecConfiguration → Type 0
IsCodec file c = ListedIn c file.codec_configuration_list × (is_valid_codec_configuration c ≡ true)

abbrev pub IsStrategy : Setting → StrategyConfiguration → Type 0
IsStrategy file s =
    ListedIn s file.strategy_configuration_list × (is_valid_strategy_configuration s ≡ true)

abbrev pub AreFrom : Setting → Maps → Type 0
AreFrom file maps =
    Holds (IsCodec file) maps.codec_configurations
    × Holds (IsStrategy file) maps.strategy_configurations

none-Holds : {A : Type 0} (P : A → Type 0) → Holds P []
unfolding find_name
none-Holds P n a e = absurd (ground arith)

if-Holds :
    {A : Type 0} (P : A → Type 0) (b : Bool) (map : Map A)
    → Holds P map
    → Holds P (if b then [] else map)
if-Holds P true map h = none-Holds P
if-Holds P false map h = h

pub load-AreFrom :
    (file : Setting) (t : Tables) → AreFrom file (load_configuration_to_map file t).maps
unfolding load_configuration_to_map
load-AreFrom file t = (
  if-Holds (IsCodec file) _ _ (
      update_map-Holds (IsCodec file) is_valid_codec_configuration (λ c. c.name)
        file.codec_configuration_list [] (λ a l v. (l, v)) (none-Holds (IsCodec file))),
  if-Holds (IsStrategy file) _ _ (
      update_map-Holds (IsStrategy file) is_valid_strategy_configuration (λ c. c.name)
        file.strategy_configuration_list [] (λ a l v. (l, v)) (none-Holds (IsStrategy file))),
)

-- What a direction is made of.
abbrev pub AreParts : Setting → Option (CodecConfiguration × StrategyConfiguration) → Type 0
AreParts file none = Unit
AreParts file (some (c, s)) = IsCodec file c × IsStrategy file s

module _ (file : Setting) (maps : Maps) (h : AreFrom file maps) where
  strategy_part :
      (c : CodecConfiguration) (n : ℕ) (o : Option StrategyConfiguration)
      → IsCodec file c
      → find_name maps.strategy_configurations n ≡ o
      → AreParts file (o >>= λ s. some (c, s))
  strategy_part c n none p e = tt
  strategy_part c n (some s) p e = (p, h.1 n s e)

  codec_part :
      (n m : ℕ) (o : Option CodecConfiguration)
      → find_name maps.codec_configurations n ≡ o
      → AreParts file (o >>= λ c. find_name maps.strategy_configurations m >>= λ s. some (c, s))
  codec_part n m none e = tt
  codec_part n m (some c) e =
      strategy_part c m (find_name maps.strategy_configurations m) (h.0 n c e) refl

  configuration_part :
      (o : Option Configuration)
      → AreParts file (
          o >>= λ k. find_name maps.codec_configurations (value 0 k.codec_configuration) >>= λ c.
          find_name maps.strategy_configurations (value 0 k.strategy_configuration) >>= λ s.
          some (c, s))
  configuration_part none = tt
  configuration_part (some k) =
      codec_part (value 0 k.codec_configuration) (value 0 k.strategy_configuration)
        (find_name maps.codec_configurations (value 0 k.codec_configuration)) refl

  pub find_parts-AreParts : (d : ℕ) → AreParts file (find_parts maps d)
  unfolding find_parts
  find_parts-AreParts d = elim (Bool-cases (d == 0)) [
    | inl zero ↦ rw zero tt
    | inr more ↦ rw more (configuration_part (find_name maps.configurations d))
  ]
