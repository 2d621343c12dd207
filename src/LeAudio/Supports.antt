-- ===== src/LeAudio/Supports.antt =====
-- A configuration that the capabilities of a remote device support.
use device_phh_treble_doze.Base.{
  ℕ, ◌≡◌, ◌≢◌, refl, Option-cases, bit_and, int_leb, inl, inr, true, false, List, [], ◌∷◌, Option,
  none, some, ==_iff, arith, All,
}
use device_phh_treble_doze.LeAudio.Types.{
  SamplingFrequency, hz44100, FrameDuration, us20000, ConfigurationLtv, ConfigurationTag, tag_of,
  ltv_tag_eqb, audio_channel_allocation, supported_audio_channel_counts, codec_frame_blocks_per_sdu,
  sampling_frequency, frame_duration, octets_per_codec_frame, CapabilityLtv,
  supported_sampling_frequencies, supported_frame_durations, supported_octets_per_codec_frame,
  supported_max_codec_frames_per_sdu, Capabilities, AseDirectionConfiguration, Masks,
}
use device_phh_treble_doze.LeAudio.Matching.{
  Priorities, has_priority, find_ltv, cap_to_cfg_tag, is_matched_valid_codec, is_matched_ltv,
  is_matched_sampling_freq, is_matched_frame_duration, is_listed_frequency, is_listed_duration,
  is_capabilities_matched_codec_configuration,
}
use device_phh_treble_doze.LeAudio.Ase.{has_capabilities}

module _ (masks : Masks) (map : Priorities) where
  -- The entry is of the kind of the capability and lies in what it supports. Every allocation of
  -- channels goes with every number of channels, as in the source.
  abbrev pub Fits : CapabilityLtv → ConfigurationLtv → Type 0
  Fits (supported_sampling_frequencies mask) (sampling_frequency f) =
      (f ≢ hz44100) × (bit_and mask (masks.frequency_bit f) ≢ 0)
  Fits (supported_frame_durations mask) (frame_duration d) =
      (d ≢ us20000) × (bit_and mask (masks.duration_bit d) ≢ 0)
  Fits (supported_octets_per_codec_frame lo hi) (octets_per_codec_frame n) =
      (int_leb lo n ≡ true) × (int_leb n hi ≡ true)
  Fits (supported_max_codec_frames_per_sdu most) (codec_frame_blocks_per_sdu n) =
      int_leb n most ≡ true
  Fits (supported_audio_channel_counts counts) (audio_channel_allocation allocation) = Unit
  Fits _ _ = ⊥

  abbrev pub Supports : List ConfigurationLtv → CapabilityLtv → Type 0
  Supports cfg c =
      (ltv : ConfigurationLtv) × (find_ltv cfg (cap_to_cfg_tag c) ≡ some ltv) × Fits c ltv

  -- The configuration has the codec of the capabilities, which is not disabled, and for each of them
  -- an entry that lies in what it supports.
  abbrev pub HasCapabilities : Capabilities → Option AseDirectionConfiguration → Type 0
  HasCapabilities c none = ⊥
  HasCapabilities c (some cfg) =
      (cfg.ase_configuration.codec_id ≡ some c.codec_id)
      × (has_priority map c.codec_id masks.codec_priority_disabled ≡ false)
      × All (Supports cfg.ase_configuration.codec_configuration) c.codec_specific_capabilities

  listed_frequency : (f : SamplingFrequency) → is_listed_frequency f ≡ true → f ≢ hz44100
  unfolding is_listed_frequency
  listed_frequency f h e = ground arith

  listed_duration : (d : FrameDuration) → is_listed_duration d ≡ true → d ≢ us20000
  unfolding is_listed_duration
  listed_duration d h e = ground arith

  is_matched_ltv-Fits :
      (c : CapabilityLtv) (ltv : ConfigurationLtv)
      → ltv_tag_eqb (tag_of ltv) (cap_to_cfg_tag c) ≡ true
      → is_matched_ltv masks c ltv ≡ true
      → Fits c ltv
  unfolding cap_to_cfg_tag is_matched_ltv is_matched_sampling_freq is_matched_frame_duration
  is_matched_ltv-Fits (supported_sampling_frequencies mask) (sampling_frequency f) tag h =
      ground (arith, listed_frequency f)
  is_matched_ltv-Fits (supported_frame_durations mask) (frame_duration d) tag h =
      ground (arith, listed_duration d)
  is_matched_ltv-Fits (supported_octets_per_codec_frame lo hi) (octets_per_codec_frame n) tag h =
      ground arith
  is_matched_ltv-Fits (supported_max_codec_frames_per_sdu most) (codec_frame_blocks_per_sdu n) tag
        h =
      h
  is_matched_ltv-Fits (supported_audio_channel_counts n) (audio_channel_allocation a) tag h = tt
  is_matched_ltv-Fits _ _ tag h = ground arith

  find_ltv-tag :
      (cfg : List ConfigurationLtv) (tag : ConfigurationTag) (ltv : ConfigurationLtv)
      → find_ltv cfg tag ≡ some ltv
      → ltv_tag_eqb (tag_of ltv) tag ≡ true
  unfolding find_ltv
  find_ltv-tag [] tag ltv found = absurd (ground arith)
  find_ltv-tag (x ∷ xs) tag ltv found = ground (arith, find_ltv-tag xs tag ltv)

  matched-Supports :
      (cfg : List ConfigurationLtv) (cs : List CapabilityLtv)
      → is_capabilities_matched_codec_configuration masks cfg cs ≡ true
      → All (Supports cfg) cs
  unfolding is_capabilities_matched_codec_configuration
  matched-Supports cfg [] h = tt
  matched-Supports cfg (c ∷ cs) h = elim (Option-cases (find_ltv cfg (cap_to_cfg_tag c))) [
    | inl missing ↦ absurd (ground arith)
    | inr (ltv, found) ↦ (
      (
        ltv,
        found,
        is_matched_ltv-Fits c ltv (find_ltv-tag cfg (cap_to_cfg_tag c) ltv found) (ground arith),
      ),
      matched-Supports cfg cs (ground arith),
    )
  ]

  enabled_codec :
      (codec required : ℕ)
      → is_matched_valid_codec masks map codec required ≡ true
      → (has_priority map codec masks.codec_priority_disabled ≡ false) × (codec ≡ required)
  unfolding is_matched_valid_codec
  enabled_codec codec required h = ground (arith, ==_iff codec required)

  pub has_capabilities_lem :
      (c : Capabilities) (cfg : AseDirectionConfiguration)
      → has_capabilities masks map c cfg.ase_configuration cfg.ase_configuration.codec_id ≡ true
      → HasCapabilities c (some cfg)
  has_capabilities_lem c cfg h = at cfg.ase_configuration.codec_id refl h
    where
      at :
          (o : Option ℕ)
          → cfg.ase_configuration.codec_id ≡ o
          → has_capabilities masks map c cfg.ase_configuration o ≡ true
          → HasCapabilities c (some cfg)
      at none e h = absurd (ground arith)
      at (some codec) e h =
          let (enabled, same) = enabled_codec codec c.codec_id (ground arith) in
          (
            ground (arith, e, same),
            ground (arith, enabled, same),
            matched-Supports cfg.ase_configuration.codec_configuration c.codec_specific_capabilities
                (ground arith),
          )
