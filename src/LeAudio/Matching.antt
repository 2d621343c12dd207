-- ===== src/LeAudio/Matching.antt =====
-- The tests of bluetooth/audio/hal/LeAudioOffloadAudioProvider.cpp on one configuration.
use device_phh_treble_doze.Base.{
  ℕ, ℤ, Bool, true, false, not, ◌&&◌, ◌||◌, List, [], ◌∷◌, Option, none, some, ◌==◌, int_eqb,
  int_leb, bit_and, if◌then◌else◌,
}
use device_phh_treble_doze.LeAudio.Types.{
  SamplingFrequency, hz44100, FrameDuration, us7500, us10000, us20000, ConfigurationLtv,
  codec_frame_blocks_per_sdu, sampling_frequency, frame_duration, octets_per_codec_frame,
  ConfigurationTag, frame_blocks_tag, frequency_tag, duration_tag, allocation_tag, octets_tag,
  tag_of, ltv_tag_eqb, CapabilityLtv, supported_sampling_frequencies, supported_frame_durations,
  supported_audio_channel_counts, supported_octets_per_codec_frame,
  supported_max_codec_frames_per_sdu, Metadata, preferred_audio_contexts, other_metadata,
  Capabilities, Masks,
}

-- `codec_priority_map_`.
abbrev pub Priorities : Type 0
Priorities = List (ℕ × ℤ)

unfoldable pub set_codec_priority : Priorities → ℕ → ℤ → Priorities
set_codec_priority [] codec priority = (codec, priority) ∷ []
set_codec_priority ((c, p) ∷ map) codec priority =
    if c == codec then (c, priority) ∷ map else (c, p) ∷ set_codec_priority map codec priority

unfoldable pub has_priority : Priorities → ℕ → ℤ → Bool
has_priority [] codec priority = false
has_priority ((c, p) ∷ map) codec priority =
    if c == codec then int_eqb p priority else has_priority map codec priority

-- A conversion of a mask to bool.
abbrev pub is_nonzero : ℕ → Bool
is_nonzero n = not (n == 0)

-- The keys of `freq_to_support_bitmask_map` and `fduration_to_support_fduration_map`.
unfoldable pub is_listed_frequency : SamplingFrequency → Bool
is_listed_frequency hz44100 = false
is_listed_frequency _ = true

unfoldable pub is_listed_duration : FrameDuration → Bool
is_listed_duration us7500 = true
is_listed_duration us10000 = true
is_listed_duration us20000 = false

unfoldable pub cap_to_cfg_tag : CapabilityLtv → ConfigurationTag
cap_to_cfg_tag (supported_sampling_frequencies mask) = frequency_tag
cap_to_cfg_tag (supported_frame_durations mask) = duration_tag
cap_to_cfg_tag (supported_audio_channel_counts mask) = allocation_tag
cap_to_cfg_tag (supported_octets_per_codec_frame lo hi) = octets_tag
cap_to_cfg_tag (supported_max_codec_frames_per_sdu n) = frame_blocks_tag

-- The entry of a tag in the map that is filled from a list: the last one stays.
unfoldable pub find_ltv : List ConfigurationLtv → ConfigurationTag → Option ConfigurationLtv
find_ltv [] tag = none
find_ltv (ltv ∷ ltvs) tag =
    let later = find_ltv ltvs tag in
    elim later [
      | some found ↦ some found
      | none ↦ if ltv_tag_eqb (tag_of ltv) tag then some ltv else none
    ]

module _ (masks : Masks) where
  unfoldable pub is_matched_valid_codec : Priorities → ℕ → ℕ → Bool
  is_matched_valid_codec map cfg_codec req_codec =
      if has_priority map cfg_codec masks.codec_priority_disabled
      then false
      else cfg_codec == req_codec

  unfoldable pub is_matched_sampling_freq : SamplingFrequency → ℕ → Bool
  is_matched_sampling_freq f mask =
      is_listed_frequency f && is_nonzero (bit_and mask (masks.frequency_bit f))

  unfoldable pub is_matched_frame_duration : FrameDuration → ℕ → Bool
  is_matched_frame_duration d mask =
      is_listed_duration d && is_nonzero (bit_and mask (masks.duration_bit d))

  -- The chain of tests by the tag of the capability, on the entry of the tag that it maps to.
  unfoldable pub is_matched_ltv : CapabilityLtv → ConfigurationLtv → Bool
  is_matched_ltv (supported_sampling_frequencies mask) (sampling_frequency f) =
      is_matched_sampling_freq f mask
  is_matched_ltv (supported_frame_durations mask) (frame_duration d) =
      is_matched_frame_duration d mask
  is_matched_ltv (supported_octets_per_codec_frame lo hi) (octets_per_codec_frame n) =
      int_leb lo n && int_leb n hi
  is_matched_ltv (supported_max_codec_frames_per_sdu most) (codec_frame_blocks_per_sdu n) =
      int_leb n most
  is_matched_ltv _ _ = true

  unfoldable pub is_capabilities_matched_codec_configuration :
      List ConfigurationLtv → List CapabilityLtv → Bool
  is_capabilities_matched_codec_configuration cfg [] = true
  is_capabilities_matched_codec_configuration cfg (capability ∷ capabilities) =
      elim (find_ltv cfg (cap_to_cfg_tag capability)) [
        | none ↦ false
        | some ltv ↦
            is_matched_ltv capability ltv
            && is_capabilities_matched_codec_configuration cfg capabilities
      ]

-- The loop over the metadata of `isCapabilitiesMatchedContext`.
unfoldable pub has_context : ℕ → List (Option Metadata) → Bool
has_context context [] = false
has_context context (none ∷ metadata) = has_context context metadata
has_context context (some (other_metadata n) ∷ metadata) = has_context context metadata
has_context context (some (preferred_audio_contexts mask) ∷ metadata) =
    is_nonzero (bit_and context mask) || has_context context metadata

abbrev pub matches_metadata : ℕ → Option (List (Option Metadata)) → Bool
matches_metadata context none = true
matches_metadata context (some metadata) = has_context context metadata

unfoldable pub is_capabilities_matched_context : ℕ → Capabilities → Bool
is_capabilities_matched_context context capabilities =
    matches_metadata context capabilities.metadata
