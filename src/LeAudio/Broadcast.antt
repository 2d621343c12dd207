-- ===== src/LeAudio/Broadcast.antt =====
-- The broadcast settings of bluetooth/audio/hal/LeAudioOffloadAudioProvider.cpp:
-- `getBroadcastSettings` and `getLeAudioBroadcastConfiguration`.
use device_phh_treble_doze.Base.{
  ℕ, ℤ, pos, Bool, false, ◌&&◌, ◌||◌, List, [], ◌∷◌, ◌++◌, Option, none, some, ◌==◌, int_eqb,
  if◌then◌else◌, length,
}
use device_phh_treble_doze.LeAudio.Types.{
  SamplingFrequency, hz16000, hz48000, hz96000, FrameDuration, us7500, us10000, ConfigurationLtv,
  sampling_frequency, frame_duration, audio_channel_allocation, octets_per_codec_frame,
  Capabilities, Masks,
}
use device_phh_treble_doze.LeAudio.Matching.{
  Priorities, is_matched_valid_codec, is_capabilities_matched_codec_configuration,
}

-- `LeAudioBisConfiguration`, and the subgroups of a setting: lists of numbered configurations.
pub record BisConfiguration : Type 0 where
  pub codec_id : ℕ
  pub codec_configuration : List ConfigurationLtv

pub record SubgroupBis : Type 0 where
  pub num_bis : ℕ
  pub bis_configuration : BisConfiguration

-- `LeAudioBroadcastConfigurationSetting`; a subgroup is the list of its BIS configurations.
pub record BroadcastSetting : Type 0 where
  pub num_bis : ℕ
  pub phy : ℕ
  pub subgroups_configurations : List (List SubgroupBis)

-- `CodecInfo` with its transport, when that is LE audio.
pub record LeAudioTransport : Type 0 where
  pub sampling_frequency_hz : List ℤ
  pub frame_duration_us : List ℤ
  pub bitdepth : List ℤ

pub record CodecInfo : Type 0 where
  pub id : ℕ
  pub transport : Option LeAudioTransport

-- Values of the AIDL interface: the masks of the allocation and the PHY, and the enumerators that a
-- map makes for a key it does not have.
pub record Defaults : Type 0 where
  pub front_center : ℕ
  pub two_m : ℕ
  pub default_frequency : SamplingFrequency
  pub default_duration : FrameDuration

module _ (defaults : Defaults) where
  unfoldable pub sampling_freq_map : ℤ → SamplingFrequency
  sampling_freq_map hz =
      if int_eqb hz (pos 16000)
      then hz16000
      else if int_eqb hz (pos 48000)
      then hz48000
      else if int_eqb hz (pos 96000)
      then hz96000
      else defaults.default_frequency

  unfoldable pub frame_duration_map : ℤ → FrameDuration
  frame_duration_map us =
      if int_eqb us (pos 7500)
      then us7500
      else if int_eqb us (pos 10000)
      then us10000
      else defaults.default_duration

  -- The setting of a codec; an empty list of values, whose first element is read, is `none`.
  unfoldable pub setting_of : ℕ → LeAudioTransport → Option BroadcastSetting
  setting_of id t = elim t.sampling_frequency_hz [
    | [] ↦ none
    | hz ∷ _ ↦ elim t.frame_duration_us [
      | [] ↦ none
      | us ∷ _ ↦ elim t.bitdepth [
        | [] ↦ none
        | bits ∷ _ ↦
            let bis : BisConfiguration = record {
              codec_id = id;
              codec_configuration =
                  sampling_frequency (sampling_freq_map hz)
                  ∷ octets_per_codec_frame bits
                  ∷ frame_duration (frame_duration_map us)
                  ∷ audio_channel_allocation defaults.front_center
                  ∷ [];
            } in
            some (record {
              num_bis = 1;
              phy = defaults.two_m;
              subgroups_configurations =
                  (record { num_bis = 1; bis_configuration = bis } ∷ []) ∷ [];
            })
      ]
    ]
  ]

  abbrev pub push_setting :
      Option BroadcastSetting → Option (List BroadcastSetting) → Option (List BroadcastSetting)
  push_setting none rest = none
  push_setting (some setting) none = none
  push_setting (some setting) (some settings) = some (setting ∷ settings)

  unfoldable pub settings_of : List CodecInfo → Option (List BroadcastSetting)
  settings_of [] = some []
  settings_of (info ∷ infos) = elim info.transport [
    | none ↦ settings_of infos
    | some t ↦ push_setting (setting_of info.id t) (settings_of infos)
  ]

  -- The settings are loaded once; `broadcast_settings` is what is there already.
  unfoldable pub get_broadcast_settings :
      List BroadcastSetting → List CodecInfo → Option (List BroadcastSetting)
  get_broadcast_settings [] infos = settings_of infos
  get_broadcast_settings (setting ∷ settings) infos = some (setting ∷ settings)

-- The setting with the subgroups, unless there are none.
abbrev pub with_subgroups : BroadcastSetting → List (List SubgroupBis) → List BroadcastSetting
with_subgroups setting [] = []
with_subgroups setting (cfgs ∷ subgroups) =
    record setting { subgroups_configurations = cfgs ∷ subgroups } ∷ []

module _ (masks : Masks) (map : Priorities) where
  unfoldable pub is_matched_bis_configuration : BisConfiguration → Capabilities → Bool
  is_matched_bis_configuration bis capabilities =
      is_matched_valid_codec masks map bis.codec_id capabilities.codec_id
      && is_capabilities_matched_codec_configuration masks bis.codec_configuration
          capabilities.codec_specific_capabilities

  unfoldable pub filter_bis : List SubgroupBis → Capabilities → List SubgroupBis
  filter_bis [] capabilities = []
  filter_bis (bis ∷ cfgs) capabilities =
      let rest = filter_bis cfgs capabilities in
      if is_matched_bis_configuration bis.bis_configuration capabilities then bis ∷ rest else rest

  abbrev pub push_subgroup : List SubgroupBis → List (List SubgroupBis) → List (List SubgroupBis)
  push_subgroup [] subgroups = subgroups
  push_subgroup (bis ∷ cfgs) subgroups = (bis ∷ cfgs) ∷ subgroups

  unfoldable pub filter_subgroups : List (List SubgroupBis) → Capabilities → List (List SubgroupBis)
  filter_subgroups [] capabilities = []
  filter_subgroups (cfgs ∷ subgroups) capabilities =
      push_subgroup (filter_bis cfgs capabilities) (filter_subgroups subgroups capabilities)

  unfoldable pub match_broadcast_setting :
      BroadcastSetting → List (Option Capabilities) → List BroadcastSetting
  match_broadcast_setting setting [] = []
  match_broadcast_setting setting (none ∷ remote) = match_broadcast_setting setting remote
  match_broadcast_setting setting (some capabilities ∷ remote) =
      with_subgroups setting (filter_subgroups setting.subgroups_configurations capabilities)
      ++ match_broadcast_setting setting remote

  unfoldable pub match_broadcast_settings :
      List BroadcastSetting → List (Option Capabilities) → List BroadcastSetting
  match_broadcast_settings [] remote = []
  match_broadcast_settings (setting ∷ settings) remote =
      match_broadcast_setting setting remote ++ match_broadcast_settings settings remote

-- A requirement is the number of BIS of a subgroup.
unfoldable pub is_required : ℕ → List ℕ → Bool
is_required count [] = false
is_required count (required ∷ requirements) = required == count || is_required count requirements

unfoldable pub keep_required : List (List SubgroupBis) → List ℕ → List (List SubgroupBis)
keep_required [] requirements = []
keep_required (cfgs ∷ subgroups) requirements =
    let rest = keep_required subgroups requirements in
    if is_required (length cfgs) requirements then cfgs ∷ rest else rest

abbrev pub or_later : List BroadcastSetting → Option BroadcastSetting → Option BroadcastSetting
or_later [] later = later
or_later (setting ∷ settings) later = some setting

unfoldable pub first_required : List BroadcastSetting → List ℕ → Option BroadcastSetting
first_required [] requirements = none
first_required (setting ∷ settings) requirements =
    or_later (with_subgroups setting (keep_required setting.subgroups_configurations requirements))
      (first_required settings requirements)

-- `_aidl_return` is set to the null pointer first: the caller's value stays, and a setting that is
-- chosen is written through the null pointer.
pub data BroadcastReply : Type 0 where
  untouched : BroadcastReply
  null_write : BroadcastSetting → BroadcastReply

abbrev pub reply_of : Option BroadcastSetting → BroadcastReply
reply_of none = untouched
reply_of (some setting) = null_write setting

abbrev pub choose_broadcast : List BroadcastSetting → List ℕ → BroadcastReply
choose_broadcast [] requirements = untouched
choose_broadcast (setting ∷ settings) [] = null_write setting
choose_broadcast (setting ∷ settings) (count ∷ requirements) =
    reply_of (first_required (setting ∷ settings) (count ∷ requirements))

unfoldable pub get_le_audio_broadcast_configuration :
    Masks
    → Priorities
    → List BroadcastSetting
    → Option (List (Option Capabilities))
    → List ℕ
    → BroadcastReply
get_le_audio_broadcast_configuration masks map settings none requirements = untouched
get_le_audio_broadcast_configuration masks map settings (some remote) requirements =
    choose_broadcast (match_broadcast_settings masks map settings remote) requirements
