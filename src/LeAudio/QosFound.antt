-- ===== src/LeAudio/QosFound.antt =====
-- The QoS that `getLeAudioAseQosConfiguration` returns.
use device_phh_treble_doze.Base.{
  ℕ, ◌≡◌, inl, inr, refl, Bool, true, List, [], ◌∷◌, Option, none, some, ◌==◌, int_eqb, int_leb,
  if◌then◌else◌, arith, Bool-cases,
}
use device_phh_treble_doze.LeAudio.Types.{
  QosConfiguration, AseDirectionConfiguration, AseSetting, QosDirectionRequirement, QosRequirement,
  Masks,
}
use device_phh_treble_doze.LeAudio.Matching.{Priorities}
use device_phh_treble_doze.LeAudio.Ase.{is_matched_ase_configuration, direction_of}
use device_phh_treble_doze.LeAudio.Offers.{Any, IfSome}
use device_phh_treble_doze.LeAudio.Qos.{
  qos_direction, is_matched_qos_requirement, is_matched_qos, first_qos, first_of, find_qos,
  qos_pair, get_le_audio_ase_qos_configuration,
}

module _ (masks : Masks) (map : Priorities) where
  -- The QoS is that of a configuration in the direction of a setting with the context, whose ASE
  -- configuration meets the required one, and it has the retransmission number and a latency within
  -- the limit.
  abbrev pub HasQos :
      QosDirectionRequirement → QosConfiguration → Option AseDirectionConfiguration → Type 0
  HasQos required qos none = ⊥
  HasQos required qos (some cfg) =
      (cfg.qos_configuration ≡ some qos)
      × (is_matched_ase_configuration masks map cfg.ase_configuration required.ase_configuration
          ≡ true)
      × (int_eqb qos.retransmission_num required.preferred_retransmission_num ≡ true)
      × (int_leb qos.max_transport_latency_ms required.max_transport_latency_ms ≡ true)

  abbrev pub HasQosIn : ℕ → Bool → QosDirectionRequirement → QosConfiguration → AseSetting → Type 0
  HasQosIn context sink required qos setting =
      (setting.audio_context ≡ context)
      × ((cfgs : List (Option AseDirectionConfiguration)) × (direction_of setting sink ≡ some cfgs)
          × Any (HasQos required qos) cfgs)

  -- A QoS is found, or none.
  abbrev pub Found : (QosConfiguration → Type 0) → Option (Option QosConfiguration) → Type 0
  Found P none = Unit
  Found P (some none) = ⊥
  Found P (some (some qos)) = P qos

  Found-map :
      {P Q : QosConfiguration → Type 0} (o : Option (Option QosConfiguration))
      → ((qos : QosConfiguration) → P qos → Q qos)
      → Found P o
      → Found Q o
  Found-map none f h = tt
  Found-map (some none) f h = h
  Found-map (some (some qos)) f h = f qos h

  head-Found :
      (required : QosDirectionRequirement) (cfg : AseDirectionConfiguration)
      (cfgs : List (Option AseDirectionConfiguration)) (o : Option QosConfiguration)
      (rest : Option (Option QosConfiguration))
      → cfg.qos_configuration ≡ o
      → Found (λ qos. Any (HasQos required qos) (some cfg ∷ cfgs)) rest
      → Found
          (λ qos. Any (HasQos required qos) (some cfg ∷ cfgs))
          (if is_matched_qos masks map cfg.ase_configuration o required then some o else rest)
  unfolding is_matched_qos_requirement
  head-Found required cfg cfgs none rest e h = h
  head-Found required cfg cfgs (some qos) rest e h =
      elim (Bool-cases (is_matched_qos masks map cfg.ase_configuration (some qos) required)) [
        | inl fits ↦ rw fits (inl (e, ground arith, ground arith, ground arith))
        | inr differs ↦ rw differs h
      ]

  first_qos-Found :
      (required : QosDirectionRequirement) (cfgs : List (Option AseDirectionConfiguration))
      → Found (λ qos. Any (HasQos required qos) cfgs) (first_qos masks map (some required) cfgs)
  unfolding first_qos
  first_qos-Found required [] = tt
  first_qos-Found required (none ∷ cfgs) =
      Found-map (first_qos masks map (some required) cfgs) (λ qos h. inr h)
        (first_qos-Found required cfgs)
  first_qos-Found required (some cfg ∷ cfgs) =
      head-Found required cfg cfgs cfg.qos_configuration (first_qos masks map (some required) cfgs)
        refl
        (Found-map (first_qos masks map (some required) cfgs) (λ qos h. inr h)
          (first_qos-Found required cfgs))

  find_qos-Found :
      (context : ℕ) (sink : Bool) (required : QosDirectionRequirement) (settings : List AseSetting)
      → Found
          (λ qos. Any (HasQosIn context sink required qos) settings)
          (find_qos masks map context sink (some required) settings)
  unfolding find_qos
  find_qos-Found context sink required [] = tt
  find_qos-Found context sink required (setting ∷ settings) =
      let rest =
        Found-map (find_qos masks map context sink (some required) settings) (λ qos h. inr h)
          (find_qos-Found context sink required settings) in
      elim (Bool-cases (setting.audio_context == context)) [
        | inr differs ↦ rw differs rest
        | inl equal ↦ rw equal (at equal (direction_of setting sink) refl rest)
      ]
    where
      at :
          (setting.audio_context == context) ≡ true
          → (o : Option (List (Option AseDirectionConfiguration))) → direction_of setting sink ≡ o
          → Found
              (λ qos. Any (HasQosIn context sink required qos) (setting ∷ settings))
              (find_qos masks map context sink (some required) settings)
          → Found
              (λ qos. Any (HasQosIn context sink required qos) (setting ∷ settings))
              (elim (first_of masks map (some required) o) [
                | none ↦ find_qos masks map context sink (some required) settings
                | some qos ↦ some qos
              ])
      at equal none e rest = rest
      at equal (some cfgs) e rest =
          join (first_qos masks map (some required) cfgs) (first_qos-Found required cfgs) rest
        where
          join :
              (o : Option (Option QosConfiguration))
              → Found (λ qos. Any (HasQos required qos) cfgs) o
              → Found
                  (λ qos. Any (HasQosIn context sink required qos) (setting ∷ settings))
                  (find_qos masks map context sink (some required) settings)
              → Found
                  (λ qos. Any (HasQosIn context sink required qos) (setting ∷ settings))
                  (elim o [
                    | none ↦ find_qos masks map context sink (some required) settings
                    | some qos ↦ some qos
                  ])
          join none h rest = rest
          join (some none) h rest = absurd h
          join (some (some qos)) h rest = inl (ground arith, (cfgs, e, h))

  -- For a requirement of the sink, `getLeAudioAseQosConfiguration` returns no QoS for the source,
  -- and for the sink none or that of a configuration for the sink in a setting with the context,
  -- whose ASE configuration meets the required one, with the preferred retransmission number and a
  -- latency of at most the required one.
  pub sink_qos_found :
      (settings : List AseSetting) (q : QosRequirement) (required : QosDirectionRequirement)
      → q.sink_ase_qos_requirement ≡ some required
      → let pair = get_le_audio_ase_qos_configuration masks map settings q in
        (pair.source_qos_configuration ≡ none)
        × IfSome
            (λ qos. Any (HasQosIn q.audio_context true required qos) settings)
            pair.sink_qos_configuration
  unfolding get_le_audio_ase_qos_configuration qos_direction
  sink_qos_found settings q required e = rw e (
      at (find_qos masks map q.audio_context true (some required) settings)
        (find_qos-Found q.audio_context true required settings))
    where
      at :
          (o : Option (Option QosConfiguration))
          → Found (λ qos. Any (HasQosIn q.audio_context true required qos) settings) o
          → ((qos_pair masks map true (some required) o).source_qos_configuration ≡ none)
            × IfSome
                (λ qos. Any (HasQosIn q.audio_context true required qos) settings)
                (qos_pair masks map true (some required) o).sink_qos_configuration
      at none h = (refl, tt)
      at (some none) h = absurd h
      at (some (some qos)) h = (refl, h)
