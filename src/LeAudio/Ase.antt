-- ===== src/LeAudio/Ase.antt =====
-- `getLeAudioAseConfiguration` and `getLeAudioAseQosConfiguration` of
-- bluetooth/audio/hal/LeAudioOffloadAudioProvider.cpp. The settings come from BluetoothAudioCodecs.
use device_phh_treble_doze.Base.{
  ℕ, Bool, true, false, not, ◌&&◌, ◌||◌, List, [], ◌∷◌, ◌++◌, Option, none, some, ◌==◌, int_eqb,
  if◌then◌else◌,
}
use device_phh_treble_doze.LeAudio.Types.{
  SamplingFrequency, hz8000, hz11025, hz16000, hz22050, hz24000, hz32000, hz44100, hz48000, hz88200,
  hz96000, hz176400, hz192000, hz384000, FrameDuration, us7500, us10000, us20000, ConfigurationLtv,
  codec_frame_blocks_per_sdu, sampling_frequency, frame_duration, audio_channel_allocation,
  octets_per_codec_frame, tag_of, Capabilities, AseConfiguration, AseDirectionConfiguration,
  AseSetting, AseRequirement, Masks,
}
use device_phh_treble_doze.LeAudio.Matching.{
  Priorities, find_ltv, is_matched_valid_codec, is_capabilities_matched_codec_configuration,
  is_capabilities_matched_context,
}

-- The comparison of two entries; the frequencies are compared by their place in the enumeration.
abbrev pub frequency_index : SamplingFrequency → ℕ
frequency_index hz8000 = 0
frequency_index hz11025 = 1
frequency_index hz16000 = 2
frequency_index hz22050 = 3
frequency_index hz24000 = 4
frequency_index hz32000 = 5
frequency_index hz44100 = 6
frequency_index hz48000 = 7
frequency_index hz88200 = 8
frequency_index hz96000 = 9
frequency_index hz176400 = 10
frequency_index hz192000 = 11
frequency_index hz384000 = 12

abbrev pub duration_index : FrameDuration → ℕ
duration_index us7500 = 0
duration_index us10000 = 1
duration_index us20000 = 2

unfoldable pub ltv_eqb : ConfigurationLtv → ConfigurationLtv → Bool
ltv_eqb (codec_frame_blocks_per_sdu m) (codec_frame_blocks_per_sdu n) = int_eqb m n
ltv_eqb (sampling_frequency f) (sampling_frequency g) = frequency_index f == frequency_index g
ltv_eqb (frame_duration d) (frame_duration e) = duration_index d == duration_index e
ltv_eqb (audio_channel_allocation m) (audio_channel_allocation n) = m == n
ltv_eqb (octets_per_codec_frame m) (octets_per_codec_frame n) = int_eqb m n
ltv_eqb _ _ = false

-- The loop over the required entries of `isMatchedAseConfiguration`.
unfoldable pub has_ltvs : List ConfigurationLtv → List ConfigurationLtv → Bool
has_ltvs cfg [] = true
has_ltvs cfg (required ∷ requirements) = elim (find_ltv cfg (tag_of required)) [
  | none ↦ false
  | some ltv ↦ ltv_eqb ltv required && has_ltvs cfg requirements
]

-- A setting with the list in the place of the direction's; `true` is the sink.
abbrev pub filtered :
    AseSetting → Bool → List (Option AseDirectionConfiguration) → Option AseSetting
filtered setting sink [] = none
filtered setting true (cfg ∷ cfgs) = some (record {
  audio_context = setting.audio_context;
  packing = setting.packing;
  sink_ase_configuration = some (cfg ∷ cfgs);
  source_ase_configuration = none;
  flags = setting.flags;
})
filtered setting false (cfg ∷ cfgs) = some (record {
  audio_context = setting.audio_context;
  packing = setting.packing;
  sink_ase_configuration = none;
  source_ase_configuration = some (cfg ∷ cfgs);
  flags = setting.flags;
})

abbrev pub direction_of : AseSetting → Bool → Option (List (Option AseDirectionConfiguration))
direction_of setting sink =
    if sink then setting.sink_ase_configuration else setting.source_ase_configuration

-- A result, if there is one.
abbrev pub push : Option AseSetting → List AseSetting → List AseSetting
push none settings = settings
push (some setting) settings = setting ∷ settings

module _ (masks : Masks) (map : Priorities) where
  abbrev pub is_matched_codec : Option ℕ → Option ℕ → Bool
  is_matched_codec setting none = true
  is_matched_codec none (some required) = false
  is_matched_codec (some codec) (some required) = is_matched_valid_codec masks map codec required

  unfoldable pub is_matched_ase_configuration : AseConfiguration → AseConfiguration → Bool
  is_matched_ase_configuration setting required =
      is_matched_codec setting.codec_id required.codec_id
      && (setting.target_latency == required.target_latency
          && has_ltvs setting.codec_configuration required.codec_configuration)

  -- The three tests of `filterCapabilitiesAseDirectionConfiguration` on one configuration.
  abbrev pub has_capabilities : Capabilities → AseConfiguration → Option ℕ → Bool
  has_capabilities capabilities cfg none = false
  has_capabilities capabilities cfg (some codec) =
      is_matched_valid_codec masks map codec capabilities.codec_id
      && is_capabilities_matched_codec_configuration masks cfg.codec_configuration
          capabilities.codec_specific_capabilities

  unfoldable pub filter_capabilities :
      List (Option AseDirectionConfiguration)
      → Capabilities
      → List (Option AseDirectionConfiguration)
  filter_capabilities [] capabilities = []
  filter_capabilities (none ∷ cfgs) capabilities = filter_capabilities cfgs capabilities
  filter_capabilities (some cfg ∷ cfgs) capabilities =
      let rest = filter_capabilities cfgs capabilities in
      if has_capabilities capabilities cfg.ase_configuration cfg.ase_configuration.codec_id
      then some cfg ∷ rest
      else rest

  -- Whether any of the requirements is met.
  unfoldable pub meets_any : AseConfiguration → List (Option AseConfiguration) → Bool
  meets_any cfg [] = false
  meets_any cfg (none ∷ requirements) = meets_any cfg requirements
  meets_any cfg (some required ∷ requirements) =
      is_matched_ase_configuration cfg required || meets_any cfg requirements

  unfoldable pub filter_requirement :
      List (Option AseDirectionConfiguration)
      → Option (List (Option AseConfiguration))
      → List (Option AseDirectionConfiguration)
  filter_requirement [] requirements = []
  filter_requirement (cfg ∷ cfgs) none = cfg ∷ filter_requirement cfgs none
  filter_requirement (none ∷ cfgs) (some requirements) = filter_requirement cfgs (some requirements)
  filter_requirement (some cfg ∷ cfgs) (some requirements) =
      let rest = filter_requirement cfgs (some requirements) in
      if meets_any cfg.ase_configuration requirements then some cfg ∷ rest else rest

  unfoldable pub capabilities_matched : AseSetting → Capabilities → Bool → Option AseSetting
  capabilities_matched setting capabilities sink =
      if not (is_capabilities_matched_context setting.audio_context capabilities)
      then none
      else elim (direction_of setting sink) [
        | none ↦ none
        | some cfgs ↦ filtered setting sink (filter_capabilities cfgs capabilities)
      ]

  -- The source list is read without a test. The settings that come here have one of the two.
  unfoldable pub requirement_matched : AseSetting → AseRequirement → Option AseSetting
  requirement_matched setting requirement =
      if not (setting.audio_context == requirement.audio_context)
      then none
      else elim setting.sink_ase_configuration [
        | some cfgs ↦
            filtered setting true (filter_requirement cfgs requirement.sink_ase_requirement)
        | none ↦ elim setting.source_ase_configuration [
          | none ↦ none
          | some cfgs ↦
              filtered setting false (filter_requirement cfgs requirement.source_ase_requirement)
        ]
      ]

  unfoldable pub match_capabilities :
      AseSetting → Bool → List (Option Capabilities) → List AseSetting
  match_capabilities setting sink [] = []
  match_capabilities setting sink (none ∷ remote) = match_capabilities setting sink remote
  match_capabilities setting sink (some capabilities ∷ remote) =
      push (capabilities_matched setting capabilities sink) (match_capabilities setting sink remote)

  unfoldable pub match_all_capabilities :
      List AseSetting → Bool → List (Option Capabilities) → List AseSetting
  match_all_capabilities [] sink remote = []
  match_all_capabilities (setting ∷ settings) sink remote =
      match_capabilities setting sink remote ++ match_all_capabilities settings sink remote

  unfoldable pub match_requirements : AseSetting → List AseRequirement → List AseSetting
  match_requirements setting [] = []
  match_requirements setting (requirement ∷ requirements) =
      push (requirement_matched setting requirement) (match_requirements setting requirements)

  unfoldable pub match_all_requirements : List AseSetting → List AseRequirement → List AseSetting
  match_all_requirements [] requirements = []
  match_all_requirements (setting ∷ settings) requirements =
      match_requirements setting requirements ++ match_all_requirements settings requirements

  -- `none` is the exception of `value()` when neither side has capabilities.
  unfoldable pub get_le_audio_ase_configuration :
      List AseSetting
      → Option (List (Option Capabilities))
      → Option (List (Option Capabilities))
      → List AseRequirement
      → Option (List AseSetting)
  get_le_audio_ase_configuration settings (some remote) source requirements =
      some (match_all_requirements (match_all_capabilities settings true remote) requirements)
  get_le_audio_ase_configuration settings none (some remote) requirements =
      some (match_all_requirements (match_all_capabilities settings false remote) requirements)
  get_le_audio_ase_configuration settings none none requirements = none
