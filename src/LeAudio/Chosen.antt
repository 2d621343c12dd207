-- ===== src/LeAudio/Chosen.antt =====
-- What `getLeAudioAseConfiguration` returns, over all settings, capabilities and requirements.
use device_phh_treble_doze.Base.{
  ◌≡◌, refl, inl, inr, Bool, true, false, List, [], ◌∷◌, ◌++◌, Option, none, some, arith, All,
}
use device_phh_treble_doze.LeAudio.Types.{Capabilities, AseSetting, AseRequirement, Masks}
use device_phh_treble_doze.LeAudio.Matching.{Priorities, is_capabilities_matched_context}
use device_phh_treble_doze.LeAudio.Ase.{
  capabilities_matched, requirement_matched, push, match_capabilities, match_all_capabilities,
  match_requirements, match_all_requirements, get_le_audio_ase_configuration,
}
use device_phh_treble_doze.LeAudio.Supports.{HasCapabilities}
use device_phh_treble_doze.LeAudio.Offers.{
  Any, IfSome, IfSome-map, Supported, Answers, capabilities_matched-Supported,
  requirement_matched-Answers,
}

All-append :
    (P : AseSetting → Type 0) (xs ys : List AseSetting) → All P xs → All P ys → All P (xs ++ ys)
All-append P [] ys hx hy = hy
All-append P (x ∷ xs) ys hx hy = (hx.0, All-append P xs ys hx.1 hy)

All-map :
    (P Q : AseSetting → Type 0)
    → ((r : AseSetting) → P r → Q r)
    → (rs : List AseSetting) → All P rs
    → All Q rs
All-map P Q f [] h = tt
All-map P Q f (r ∷ rs) h = (f r h.0, All-map P Q f rs h.1)

push-All :
    (P : AseSetting → Type 0) (o : Option AseSetting) (rs : List AseSetting)
    → IfSome P o
    → All P rs
    → All P (push o rs)
push-All P none rs h hs = hs
push-All P (some r) rs h hs = (h, hs)

Any-map {ℓ} :
    {A : Type ℓ} {P Q : A → Type 0} (xs : List A) → ((x : A) → P x → Q x) → Any P xs → Any Q xs
Any-map [] f h = h
Any-map (x ∷ xs) f (inl h) = inl (f x h)
Any-map (x ∷ xs) f (inr h) = inr (Any-map xs f h)

-- An element that serves all is, for each, one that serves it.
Any-All {ℓ} :
    {A : Type ℓ} (Q : A → AseSetting → Type 0) (xs : List A) (rs : List AseSetting)
    → Any (λ x. All (Q x) rs) xs
    → All (λ r. Any (λ x. Q x r) xs) rs
Any-All Q [] rs h = absurd h
Any-All Q (x ∷ xs) rs (inl h) = All-map (Q x) (λ r. Any (λ y. Q y r) (x ∷ xs)) (λ r q. inl q) rs h
Any-All Q (x ∷ xs) rs (inr h) =
    All-map (λ r. Any (λ y. Q y r) xs) (λ r. Any (λ y. Q y r) (x ∷ xs)) (λ r q. inr q) rs
      (Any-All Q xs rs h)

module _ (masks : Masks) (map : Priorities) where
  abbrev SupportedBy : Bool → AseSetting → Option Capabilities → Type 0
  SupportedBy sink r none = ⊥
  SupportedBy sink r (some c) = Supported masks map sink c r

  -- The setting has the context of the requirement, which the capabilities prefer, and in the
  -- direction a list of configurations, not empty, each of which the capabilities support and meets
  -- the requirement.
  abbrev pub OfferedBy : Bool → AseRequirement → AseSetting → Option Capabilities → Type 0
  OfferedBy sink q r none = ⊥
  OfferedBy sink q r (some c) =
      (is_capabilities_matched_context r.audio_context c ≡ true)
      × Answers masks map (HasCapabilities masks map c) r.audio_context sink q r

  match_capabilities-Supported :
      (setting : AseSetting) (sink : Bool) (remote : List (Option Capabilities))
      → All
          (λ r. Any (SupportedBy sink r) remote)
          (match_capabilities masks map setting sink remote)
  unfolding match_capabilities
  match_capabilities-Supported setting sink [] = tt
  match_capabilities-Supported setting sink (none ∷ remote) =
      All-map (λ r. Any (SupportedBy sink r) remote) (λ r. Any (SupportedBy sink r) (none ∷ remote))
        (λ r h. inr h) (match_capabilities masks map setting sink remote)
        (match_capabilities-Supported setting sink remote)
  match_capabilities-Supported setting sink (some c ∷ remote) =
      push-All (λ r. Any (SupportedBy sink r) (some c ∷ remote))
        (capabilities_matched masks map setting c sink)
        (match_capabilities masks map setting sink remote)
        (IfSome-map (capabilities_matched masks map setting c sink) (λ r h. inl h)
          (capabilities_matched-Supported masks map setting c sink))
        (All-map (λ r. Any (SupportedBy sink r) remote)
          (λ r. Any (SupportedBy sink r) (some c ∷ remote)) (λ r h. inr h)
          (match_capabilities masks map setting sink remote)
          (match_capabilities-Supported setting sink remote))

  match_all_capabilities-Supported :
      (settings : List AseSetting) (sink : Bool) (remote : List (Option Capabilities))
      → All
          (λ r. Any (SupportedBy sink r) remote)
          (match_all_capabilities masks map settings sink remote)
  unfolding match_all_capabilities
  match_all_capabilities-Supported [] sink remote = tt
  match_all_capabilities-Supported (setting ∷ settings) sink remote =
      All-append (λ r. Any (SupportedBy sink r) remote)
        (match_capabilities masks map setting sink remote)
        (match_all_capabilities masks map settings sink remote)
        (match_capabilities-Supported setting sink remote)
        (match_all_capabilities-Supported settings sink remote)

  offered :
      (sink : Bool) (q : AseRequirement) (setting r : AseSetting) (c : Capabilities)
      → Supported masks map sink c setting
      → Answers masks map (HasCapabilities masks map c) setting.audio_context sink q r
      → OfferedBy sink q r (some c)
  offered sink q setting r c (fits, rest) (same, (l, dir, ctx, more, held)) =
      (ground arith, (same, (l, dir, refl, more, held)))

  match_requirements-Offered :
      (sink : Bool) (setting : AseSetting) (o : Option Capabilities)
      (requirements : List AseRequirement)
      → SupportedBy sink setting o
      → All
          (λ r. Any (λ q. OfferedBy sink q r o) requirements)
          (match_requirements masks map setting requirements)
  unfolding match_requirements
  match_requirements-Offered sink setting none requirements h = absurd h
  match_requirements-Offered sink setting (some c) [] h = tt
  match_requirements-Offered sink setting (some c) (q ∷ requirements) h =
      push-All (λ r. Any (λ p. OfferedBy sink p r (some c)) (q ∷ requirements))
        (requirement_matched masks map setting q)
        (match_requirements masks map setting requirements)
        (IfSome-map (requirement_matched masks map setting q)
          (λ r answers. inl (offered sink q setting r c h answers))
          (requirement_matched-Answers masks map (HasCapabilities masks map c) setting
            setting.audio_context sink q h.1))
        (All-map (λ r. Any (λ p. OfferedBy sink p r (some c)) requirements)
          (λ r. Any (λ p. OfferedBy sink p r (some c)) (q ∷ requirements)) (λ r k. inr k)
          (match_requirements masks map setting requirements)
          (match_requirements-Offered sink setting (some c) requirements h))

  -- Some capabilities and some requirement offer the setting.
  abbrev pub IsOffered :
      Bool → List (Option Capabilities) → List AseRequirement → AseSetting → Type 0
  IsOffered sink remote requirements r =
      Any (λ o. Any (λ q. OfferedBy sink q r o) requirements) remote

  match_all_requirements-IsOffered :
      (sink : Bool) (settings : List AseSetting) (remote : List (Option Capabilities))
      (requirements : List AseRequirement)
      → All (λ r. Any (SupportedBy sink r) remote) settings
      → All
          (IsOffered sink remote requirements)
          (match_all_requirements masks map settings requirements)
  unfolding match_all_requirements
  match_all_requirements-IsOffered sink [] remote requirements h = tt
  match_all_requirements-IsOffered sink (setting ∷ settings) remote requirements h =
      All-append (IsOffered sink remote requirements)
        (match_requirements masks map setting requirements)
        (match_all_requirements masks map settings requirements)
        (Any-All (λ o r. Any (λ q. OfferedBy sink q r o) requirements) remote
          (match_requirements masks map setting requirements)
          (Any-map remote (λ o k. match_requirements-Offered sink setting o requirements k) h.0))
        (match_all_requirements-IsOffered sink settings remote requirements h.1)

  -- Whatever settings the codecs offer, each setting that `getLeAudioAseConfiguration` returns for
  -- capabilities of the sink, or else of the source, belongs to capabilities of that list and to a
  -- requirement: its context is that of the requirement, which these capabilities prefer or leave
  -- open; it has at least one configuration in the direction, and each of them has the codec of these
  -- capabilities, which is not disabled, and for each of them an entry of its kind, and meets one of
  -- the direction's requirements, if there are any. The entry lies within what is supported where the
  -- kind is frequencies, durations, octets or frames per SDU; where it is the number of channels, any
  -- allocation will do.
  pub ase_configuration-IsOffered :
      (settings : List AseSetting) (remote : List (Option Capabilities))
      (source : Option (List (Option Capabilities))) (requirements : List AseRequirement)
      → IfSome
          (All (IsOffered true remote requirements))
          (get_le_audio_ase_configuration masks map settings (some remote) source requirements)
        × IfSome
            (All (IsOffered false remote requirements))
            (get_le_audio_ase_configuration masks map settings none (some remote) requirements)
  unfolding get_le_audio_ase_configuration
  ase_configuration-IsOffered settings remote source requirements = (
    match_all_requirements-IsOffered true (match_all_capabilities masks map settings true remote)
        remote requirements (match_all_capabilities-Supported settings true remote),
    match_all_requirements-IsOffered false (match_all_capabilities masks map settings false remote)
        remote requirements (match_all_capabilities-Supported settings false remote),
  )
