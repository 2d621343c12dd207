-- ===== src/LeAudio/Offers.antt =====
-- What the settings that `getLeAudioAseConfiguration` returns have in common.
use device_phh_treble_doze.Base.{
  ℕ, ◌≡◌, refl, ◌∙◌, ◌⊎◌, inl, inr, Bool, true, false, List, [], ◌∷◌, Option, none, some, ◌==◌,
  arith, All, Bool-cases,
}
use device_phh_treble_doze.LeAudio.Types.{
  Capabilities, AseConfiguration, AseDirectionConfiguration, AseSetting, AseRequirement, Masks,
}
use device_phh_treble_doze.LeAudio.Matching.{Priorities, is_capabilities_matched_context}
use device_phh_treble_doze.LeAudio.Ase.{
  has_capabilities, filter_capabilities, meets_any, filter_requirement, filtered, direction_of,
  capabilities_matched, requirement_matched,
}
use device_phh_treble_doze.LeAudio.Supports.{HasCapabilities, has_capabilities_lem}

-- Some element has the property.
abbrev pub Any {ℓ} : {A : Type ℓ} → (A → Type 0) → List A → Type 0
Any P [] = ⊥
Any P (x ∷ xs) = P x ⊎ Any P xs

abbrev pub IfSome {ℓ} : {A : Type ℓ} → (A → Type 0) → Option A → Type 0
IfSome P none = Unit
IfSome P (some x) = P x

-- The setting has the list in the place of the direction, and none in the other one for a source.
abbrev pub Directed : Bool → AseSetting → List (Option AseDirectionConfiguration) → Type 0
Directed true r cfgs = r.sink_ase_configuration ≡ some cfgs
Directed false r cfgs = (r.sink_ase_configuration ≡ none) × (r.source_ase_configuration ≡ some cfgs)

abbrev pub is_cons : List (Option AseDirectionConfiguration) → Bool
is_cons [] = false
is_cons (cfg ∷ cfgs) = true

abbrev pub requirement_of : AseRequirement → Bool → Option (List (Option AseConfiguration))
requirement_of q true = q.sink_ase_requirement
requirement_of q false = q.source_ase_requirement

-- The setting has the context, and a list of the direction, not empty, whose elements all have `P`.
abbrev pub Holds : (Option AseDirectionConfiguration → Type 0) → ℕ → Bool → AseSetting → Type 0
Holds P context sink r =
    (cfgs : List (Option AseDirectionConfiguration)) × Directed sink r cfgs
    × (r.audio_context ≡ context)
    × (is_cons cfgs ≡ true)
    × All P cfgs

pub IfSome-map :
    {P Q : AseSetting → Type 0} (o : Option AseSetting)
    → ((r : AseSetting) → P r → Q r)
    → IfSome P o
    → IfSome Q o
IfSome-map none f h = tt
IfSome-map (some r) f h = f r h

filtered-Holds :
    (P : Option AseDirectionConfiguration → Type 0) (setting : AseSetting) (sink : Bool)
    (cfgs : List (Option AseDirectionConfiguration))
    → All P cfgs
    → IfSome (Holds P setting.audio_context sink) (filtered setting sink cfgs)
filtered-Holds P setting sink [] h = tt
filtered-Holds P setting true (cfg ∷ cfgs) h = (cfg ∷ cfgs, refl, refl, refl, h)
filtered-Holds P setting false (cfg ∷ cfgs) h = (cfg ∷ cfgs, (refl, refl), refl, refl, h)

module _ (masks : Masks) (map : Priorities) where
  -- The configuration meets one of the requirements of the direction, if there are any.
  abbrev pub MeetsOne :
      Option (List (Option AseConfiguration)) → Option AseDirectionConfiguration → Type 0
  MeetsOne none cfg = Unit
  MeetsOne (some requirements) none = ⊥
  MeetsOne (some requirements) (some cfg) =
      meets_any masks map cfg.ase_configuration requirements ≡ true

  filter_capabilities-HasCapabilities :
      (cfgs : List (Option AseDirectionConfiguration)) (c : Capabilities)
      → All (HasCapabilities masks map c) (filter_capabilities masks map cfgs c)
  unfolding filter_capabilities
  filter_capabilities-HasCapabilities [] c = tt
  filter_capabilities-HasCapabilities (none ∷ cfgs) c = filter_capabilities-HasCapabilities cfgs c
  filter_capabilities-HasCapabilities (some cfg ∷ cfgs) c =
      elim (Bool-cases
        (has_capabilities masks map c cfg.ase_configuration cfg.ase_configuration.codec_id)) [
          | inl has ↦
              rw has (
                has_capabilities_lem masks map c cfg has,
                filter_capabilities-HasCapabilities cfgs c,
              )
          | inr lacks ↦ rw lacks (filter_capabilities-HasCapabilities cfgs c)
        ]

  -- The filter by requirements keeps what it has, and takes what meets one.
  filter_requirement-MeetsOne :
      (P : Option AseDirectionConfiguration → Type 0)
      (cfgs : List (Option AseDirectionConfiguration))
      (requirements : Option (List (Option AseConfiguration)))
      → All P cfgs
      → All
          (λ cfg. P cfg × MeetsOne requirements cfg)
          (filter_requirement masks map cfgs requirements)
  unfolding filter_requirement
  filter_requirement-MeetsOne P [] requirements h = tt
  filter_requirement-MeetsOne P (cfg ∷ cfgs) none h =
      ((h.0, tt), filter_requirement-MeetsOne P cfgs none h.1)
  filter_requirement-MeetsOne P (none ∷ cfgs) (some requirements) h =
      filter_requirement-MeetsOne P cfgs (some requirements) h.1
  filter_requirement-MeetsOne P (some cfg ∷ cfgs) (some requirements) h =
      let rest = filter_requirement-MeetsOne P cfgs (some requirements) h.1 in
      elim (Bool-cases (meets_any masks map cfg.ase_configuration requirements)) [
        | inl meets ↦ rw meets ((h.0, meets), rest)
        | inr fails ↦ rw fails rest
      ]

  -- A setting that has passed the capabilities `c`.
  abbrev pub Supported : Bool → Capabilities → AseSetting → Type 0
  Supported sink c r =
      (is_capabilities_matched_context r.audio_context c ≡ true)
      × Holds (HasCapabilities masks map c) r.audio_context sink r

  pub capabilities_matched-Supported :
      (setting : AseSetting) (c : Capabilities) (sink : Bool)
      → IfSome (Supported sink c) (capabilities_matched masks map setting c sink)
  unfolding capabilities_matched
  capabilities_matched-Supported setting c sink =
      elim (Bool-cases (is_capabilities_matched_context setting.audio_context c)) [
        | inr differs ↦ rw differs tt
        | inl fits ↦ rw fits (at fits (direction_of setting sink))
      ]
    where
      at :
          is_capabilities_matched_context setting.audio_context c ≡ true
          → (o : Option (List (Option AseDirectionConfiguration)))
          → IfSome (Supported sink c) (elim o [
            | none ↦ none
            | some cfgs ↦ filtered setting sink (filter_capabilities masks map cfgs c)
          ])
      at fits none = tt
      at fits (some cfgs) =
          IfSome-map (filtered setting sink (filter_capabilities masks map cfgs c))
            (λ r (l, dir, ctx, cons, all). (ground arith, (l, dir, refl, cons, all)))
            (filtered-Holds (HasCapabilities masks map c) setting sink
              (filter_capabilities masks map cfgs c) (filter_capabilities-HasCapabilities cfgs c))

  -- A setting that comes from one with `P` by the requirement `q`.
  abbrev pub Answers :
      (Option AseDirectionConfiguration → Type 0) → ℕ → Bool → AseRequirement → AseSetting → Type 0
  Answers P context sink q r =
      (r.audio_context ≡ q.audio_context)
      × Holds (λ cfg. P cfg × MeetsOne (requirement_of q sink) cfg) context sink r

  pub requirement_matched-Answers :
      (P : Option AseDirectionConfiguration → Type 0) (setting : AseSetting) (context : ℕ)
      (sink : Bool) (q : AseRequirement)
      → Holds P context sink setting
      → IfSome (Answers P context sink q) (requirement_matched masks map setting q)
  unfolding requirement_matched
  requirement_matched-Answers P setting context true q (cfgs, place, same, cons, all) =
      elim (Bool-cases (setting.audio_context == q.audio_context)) [
        | inr differs ↦ rw differs tt
        | inl equal ↦
            rw (equal, place)
              (IfSome-map
                (filtered setting true (filter_requirement masks map cfgs q.sink_ase_requirement))
                (λ r (l, dir, ctx, more, held). (ground arith, (l, dir, ctx ∙ same, more, held)))
                (filtered-Holds (λ cfg. P cfg × MeetsOne q.sink_ase_requirement cfg) setting true
                  (filter_requirement masks map cfgs q.sink_ase_requirement)
                  (filter_requirement-MeetsOne P cfgs q.sink_ase_requirement all)))
      ]
  requirement_matched-Answers P setting context false q (cfgs, (no_sink, place), same, cons, all) =
      elim (Bool-cases (setting.audio_context == q.audio_context)) [
        | inr differs ↦ rw differs tt
        | inl equal ↦
            rw (equal, no_sink, place)
              (IfSome-map
                (filtered setting false
                  (filter_requirement masks map cfgs q.source_ase_requirement))
                (λ r (l, dir, ctx, more, held). (ground arith, (l, dir, ctx ∙ same, more, held)))
                (filtered-Holds (λ cfg. P cfg × MeetsOne q.source_ase_requirement cfg) setting false
                  (filter_requirement masks map cfgs q.source_ase_requirement)
                  (filter_requirement-MeetsOne P cfgs q.source_ase_requirement all)))
      ]
