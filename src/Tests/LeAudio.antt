-- ===== src/Tests/LeAudio.antt =====
-- Examples about the LE audio offload configurations.
use device_phh_treble_doze.Base.{
  ℕ, pos, ◌≡◌, refl, true, false, List, [], ◌∷◌, Option, none, some, All,
}
use device_phh_treble_doze.A2dp.Codec.{stereo}
use device_phh_treble_doze.Session.Types.{le_audio_software_encoding}
use device_phh_treble_doze.LeAudio.Types.{
  SamplingFrequency, hz44100, hz48000, hz16000, us7500, FrameDuration, us10000, ConfigurationLtv,
  sampling_frequency, frame_duration, audio_channel_allocation, octets_per_codec_frame,
  supported_sampling_frequencies, supported_octets_per_codec_frame, preferred_audio_contexts,
  Capabilities, AseConfiguration, QosConfiguration, AseDirectionConfiguration, AseSetting,
  AseRequirement, QosDirectionRequirement, QosRequirement, Masks,
}
use device_phh_treble_doze.LeAudio.Matching.{
  Priorities, find_ltv, is_matched_valid_codec, has_priority, is_capabilities_matched_context,
  has_context, is_matched_ltv, is_matched_sampling_freq, is_listed_frequency, cap_to_cfg_tag,
  is_capabilities_matched_codec_configuration,
}
use device_phh_treble_doze.LeAudio.Ase.{
  get_le_audio_ase_configuration, match_all_capabilities, match_capabilities, capabilities_matched,
  filter_capabilities, match_all_requirements, match_requirements, requirement_matched,
  filter_requirement, meets_any, is_matched_ase_configuration, has_ltvs, ltv_eqb,
}
use device_phh_treble_doze.LeAudio.Offers.{IfSome, Any}
use device_phh_treble_doze.LeAudio.Chosen.{IsOffered, ase_configuration-IsOffered}
use device_phh_treble_doze.LeAudio.Qos.{get_le_audio_ase_qos_configuration}
use device_phh_treble_doze.LeAudio.QosFound.{HasQosIn, sink_qos_found}
use device_phh_treble_doze.LeAudio.Broadcast.{
  Defaults, CodecInfo, BroadcastSetting, null_write, get_broadcast_settings, settings_of,
  setting_of, sampling_freq_map, frame_duration_map, match_broadcast_settings,
  match_broadcast_setting, filter_subgroups, filter_bis, is_matched_bis_configuration,
  get_le_audio_broadcast_configuration,
}
use device_phh_treble_doze.LeAudio.Software.{
  le_data_mq_size, channel_mode_to_channel_count, buffer_modifier,
}

abbrev frequency_bits : SamplingFrequency → ℕ
frequency_bits hz16000 = 4
frequency_bits hz44100 = 64
frequency_bits hz48000 = 128
frequency_bits _ = 1

abbrev duration_bits : FrameDuration → ℕ
duration_bits us7500 = 1
duration_bits _ = 2

abbrev masks : Masks
masks = record {
  frequency_bit = frequency_bits;
  duration_bit = duration_bits;
  codec_priority_disabled = pos 7;
}

abbrev map : Priorities
map = (9, pos 7) ∷ []

abbrev ltvs : List ConfigurationLtv
ltvs = sampling_frequency hz48000 ∷ octets_per_codec_frame (pos 100) ∷ []

abbrev ase : ℕ → AseConfiguration
ase codec = record {
  codec_id = some codec;
  target_latency = 2;
  codec_configuration = ltvs;
  ignored = 0;
}

abbrev qos : QosConfiguration
qos = record { retransmission_num = pos 5; max_transport_latency_ms = pos 20; ignored = 0 }

abbrev direction : List (Option AseDirectionConfiguration)
direction =
    some (record { ase_configuration = ase 9; qos_configuration = none })
    ∷ none
    ∷ some (record { ase_configuration = ase 6; qos_configuration = some qos })
    ∷ []

abbrev setting : AseSetting
setting = record {
  audio_context = 4;
  packing = 0;
  sink_ase_configuration = some direction;
  source_ase_configuration = none;
  flags = none;
}

abbrev capabilities : ℕ → Capabilities
capabilities codec = record {
  codec_id = codec;
  codec_specific_capabilities =
      supported_sampling_frequencies 132 ∷ supported_octets_per_codec_frame (pos 40) (pos 120) ∷ [];
  metadata = some (none ∷ some (preferred_audio_contexts 12) ∷ []);
}

abbrev remote : List (Option Capabilities)
remote = none ∷ some (capabilities 6) ∷ some (capabilities 9) ∷ []

abbrev requirement : AseRequirement
requirement = record {
  audio_context = 4;
  sink_ase_requirement = some (some (ase 6) ∷ []);
  source_ase_requirement = none;
}

ase_configuration-IsOffered_example :
    IfSome (All (IsOffered masks map true remote (requirement ∷ []))) (
      get_le_audio_ase_configuration masks map (setting ∷ []) (some remote) none (requirement ∷ []))
    × IfSome (All (IsOffered masks map false remote (requirement ∷ []))) (
        get_le_audio_ase_configuration masks map
          (setting ∷ [])
          none
          (some remote)
          (requirement ∷ []))
ase_configuration-IsOffered_example =
    ase_configuration-IsOffered masks map (setting ∷ []) remote none (requirement ∷ [])

-- The codec 9 is disabled: one setting is returned, with the configuration of the codec 6.
one_setting :
    get_le_audio_ase_configuration masks map (setting ∷ []) (some remote) none (requirement ∷ [])
    ≡ some (
        record setting {
          sink_ase_configuration =
              some (some (record { ase_configuration = ase 6; qos_configuration = some qos }) ∷ []);
        }
        ∷ [])
unfolding get_le_audio_ase_configuration match_all_requirements match_all_capabilities
    match_capabilities capabilities_matched is_capabilities_matched_context has_context
    filter_capabilities is_matched_valid_codec has_priority
    is_capabilities_matched_codec_configuration find_ltv cap_to_cfg_tag is_matched_ltv
    is_matched_sampling_freq is_listed_frequency match_requirements filter_requirement has_ltvs
    is_matched_ase_configuration ltv_eqb meets_any requirement_matched
one_setting = refl

abbrev required : QosDirectionRequirement
required = record {
  preferred_retransmission_num = pos 5;
  max_transport_latency_ms = pos 20;
  ase_configuration = ase 6;
}

abbrev qos_requirement : QosRequirement
qos_requirement = record {
  audio_context = 4;
  sink_ase_qos_requirement = some required;
  source_ase_qos_requirement = none;
}

sink_qos_found_example :
    let pair = get_le_audio_ase_qos_configuration masks map (setting ∷ []) qos_requirement in
    (pair.source_qos_configuration ≡ none)
    × IfSome
        (λ found. Any (HasQosIn masks map 4 true required found) (setting ∷ []))
        pair.sink_qos_configuration
sink_qos_found_example = sink_qos_found masks map (setting ∷ []) qos_requirement required refl

-- 44100 Hz matches no mask.
no_44100 : is_matched_sampling_freq masks hz44100 255 ≡ false
unfolding is_matched_sampling_freq is_listed_frequency
no_44100 = refl

-- Two intervals of 7.5 ms are 2880 bytes.
short_queue :
    le_data_mq_size le_audio_software_encoding (record {
      sample_rate_hz = pos 48000;
      channel_mode = stereo;
      bits_per_sample = pos 16;
      data_interval_us = pos 7500;
    })
    ≡ 2688
unfolding le_data_mq_size channel_mode_to_channel_count buffer_modifier
short_queue = refl

abbrev defaults : Defaults
defaults = record {
  front_center = 4;
  two_m = 2;
  default_frequency = hz16000;
  default_duration = us7500;
}

abbrev lc3 : CodecInfo
lc3 = record {
  id = 6;
  transport = some (record {
    sampling_frequency_hz = pos 48000 ∷ [];
    frame_duration_us = pos 10000 ∷ [];
    bitdepth = pos 24 ∷ [];
  });
}

abbrev broadcast : BroadcastSetting
broadcast = record {
  num_bis = 1;
  phy = 2;
  subgroups_configurations =
      (record {
        num_bis = 1;
        bis_configuration = record {
          codec_id = 6;
          codec_configuration =
              sampling_frequency hz48000
              ∷ octets_per_codec_frame (pos 24)
              ∷ frame_duration us10000
              ∷ audio_channel_allocation 4
              ∷ [];
        };
      }
        ∷ [])
      ∷ [];
}

-- The bit depth stands where the octets of a frame belong.
broadcast_loaded : get_broadcast_settings defaults [] (lc3 ∷ []) ≡ some (broadcast ∷ [])
unfolding get_broadcast_settings settings_of setting_of sampling_freq_map frame_duration_map
broadcast_loaded = refl

abbrev broadcast_remote : List (Option Capabilities)
broadcast_remote =
    some (record {
      codec_id = 6;
      codec_specific_capabilities = supported_sampling_frequencies 128 ∷ [];
      metadata = none;
    })
    ∷ []

-- A setting that fits is written through the null pointer.
broadcast_null :
    get_le_audio_broadcast_configuration masks map (broadcast ∷ []) (some broadcast_remote) []
    ≡ null_write broadcast
unfolding get_le_audio_broadcast_configuration match_broadcast_settings match_broadcast_setting
    filter_subgroups filter_bis is_matched_bis_configuration is_matched_valid_codec has_priority
    is_capabilities_matched_codec_configuration find_ltv cap_to_cfg_tag is_matched_ltv
    is_matched_sampling_freq is_listed_frequency
broadcast_null = refl
