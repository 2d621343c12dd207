-- ===== src/LeAudio/Qos.antt =====
-- `getLeAudioAseQosConfiguration` of bluetooth/audio/hal/LeAudioOffloadAudioProvider.cpp.
use device_phh_treble_doze.Base.{
  ℕ, Bool, true, false, not, ◌&&◌, List, [], ◌∷◌, Option, none, some, ◌==◌, int_eqb, int_leb,
  if◌then◌else◌,
}
use device_phh_treble_doze.LeAudio.Types.{
  AseConfiguration, QosConfiguration, AseDirectionConfiguration, AseSetting,
  QosDirectionRequirement, QosRequirement, Masks,
}
use device_phh_treble_doze.LeAudio.Matching.{Priorities}
use device_phh_treble_doze.LeAudio.Ase.{is_matched_ase_configuration, direction_of}

-- `LeAudioAseQosConfigurationPair`.
pub record QosPair : Type 0 where
  pub sink_qos_configuration : Option QosConfiguration
  pub source_qos_configuration : Option QosConfiguration

-- The direction that is looked at, and what is required there.
unfoldable pub qos_direction : QosRequirement → Bool × Option QosDirectionRequirement
qos_direction q = elim q.sink_ase_qos_requirement [
  | some required ↦ (true, some required)
  | none ↦ (false, q.source_ase_qos_requirement)
]

unfoldable pub is_matched_qos_requirement : QosConfiguration → QosDirectionRequirement → Bool
is_matched_qos_requirement qos required =
    int_eqb qos.retransmission_num required.preferred_retransmission_num
    && int_leb qos.max_transport_latency_ms required.max_transport_latency_ms

module _ (masks : Masks) (map : Priorities) where
  abbrev pub is_matched_qos :
      AseConfiguration → Option QosConfiguration → QosDirectionRequirement → Bool
  is_matched_qos ase none required = false
  is_matched_qos ase (some qos) required =
      is_matched_ase_configuration masks map ase required.ase_configuration
      && is_matched_qos_requirement qos required

  -- The first configuration of a list whose QoS is returned, and that QoS. Without a requirement
  -- that is the first one there is, with or without a QoS.
  unfoldable pub first_qos :
      Option QosDirectionRequirement
      → List (Option AseDirectionConfiguration)
      → Option (Option QosConfiguration)
  first_qos required [] = none
  first_qos required (none ∷ cfgs) = first_qos required cfgs
  first_qos none (some cfg ∷ cfgs) = some cfg.qos_configuration
  first_qos (some required) (some cfg ∷ cfgs) =
      let rest = first_qos (some required) cfgs in
      if is_matched_qos cfg.ase_configuration cfg.qos_configuration required
      then some cfg.qos_configuration
      else rest

  abbrev pub first_of :
      Option QosDirectionRequirement
      → Option (List (Option AseDirectionConfiguration))
      → Option (Option QosConfiguration)
  first_of required none = none
  first_of required (some cfgs) = first_qos required cfgs

  -- The loop over the settings with the context.
  unfoldable pub find_qos :
      ℕ → Bool → Option QosDirectionRequirement → List AseSetting → Option (Option QosConfiguration)
  find_qos context sink required [] = none
  find_qos context sink required (setting ∷ settings) =
      let rest = find_qos context sink required settings in
      if not (setting.audio_context == context)
      then rest
      else elim (first_of required (direction_of setting sink)) [
        | none ↦ rest
        | some qos ↦ some qos
      ]

  abbrev pub qos_pair :
      Bool → Option QosDirectionRequirement → Option (Option QosConfiguration) → QosPair
  qos_pair sink required none = record {
    sink_qos_configuration = none;
    source_qos_configuration = none;
  }
  qos_pair sink none (some qos) = record {
    sink_qos_configuration = qos;
    source_qos_configuration = qos;
  }
  qos_pair true (some required) (some qos) = record {
    sink_qos_configuration = qos;
    source_qos_configuration = none;
  }
  qos_pair false (some required) (some qos) = record {
    sink_qos_configuration = none;
    source_qos_configuration = qos;
  }

  unfoldable pub get_le_audio_ase_qos_configuration : List AseSetting → QosRequirement → QosPair
  get_le_audio_ase_qos_configuration settings q =
      let (sink, required) = qos_direction q in
      qos_pair sink required (find_qos q.audio_context sink required settings)
