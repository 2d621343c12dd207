-- ===== src/LeAudio/Types.antt =====
-- The data of LE audio configurations and capabilities, from the AIDL interface of the providers. A
-- codec, a context, a packing and the parts that no test reads are told apart by numbers.
use device_phh_treble_doze.Base.{ℕ, ℤ, Bool, true, false, List, Option}

pub data SamplingFrequency : Type 0 where
  hz8000 hz11025 hz16000 hz22050 hz24000 hz32000 hz44100 hz48000 : SamplingFrequency
  hz88200 hz96000 hz176400 hz192000 hz384000 : SamplingFrequency

pub data FrameDuration : Type 0 where
  us7500 us10000 us20000 : FrameDuration

-- `CodecSpecificConfigurationLtv`, and its tag.
pub data ConfigurationLtv : Type 0 where
  codec_frame_blocks_per_sdu : ℤ → ConfigurationLtv
  sampling_frequency : SamplingFrequency → ConfigurationLtv
  frame_duration : FrameDuration → ConfigurationLtv
  audio_channel_allocation : ℕ → ConfigurationLtv
  octets_per_codec_frame : ℤ → ConfigurationLtv

pub data ConfigurationTag : Type 0 where
  frame_blocks_tag frequency_tag duration_tag allocation_tag octets_tag : ConfigurationTag

abbrev pub tag_of : ConfigurationLtv → ConfigurationTag
tag_of (codec_frame_blocks_per_sdu n) = frame_blocks_tag
tag_of (sampling_frequency f) = frequency_tag
tag_of (frame_duration d) = duration_tag
tag_of (audio_channel_allocation n) = allocation_tag
tag_of (octets_per_codec_frame n) = octets_tag

abbrev pub ltv_tag_eqb : ConfigurationTag → ConfigurationTag → Bool
ltv_tag_eqb frame_blocks_tag frame_blocks_tag = true
ltv_tag_eqb frequency_tag frequency_tag = true
ltv_tag_eqb duration_tag duration_tag = true
ltv_tag_eqb allocation_tag allocation_tag = true
ltv_tag_eqb octets_tag octets_tag = true
ltv_tag_eqb _ _ = false

-- `CodecSpecificCapabilitiesLtv`. Frequencies and durations are bit masks.
pub data CapabilityLtv : Type 0 where
  supported_sampling_frequencies supported_frame_durations : ℕ → CapabilityLtv
  supported_audio_channel_counts : ℕ → CapabilityLtv
  supported_octets_per_codec_frame : ℤ → ℤ → CapabilityLtv
  supported_max_codec_frames_per_sdu : ℤ → CapabilityLtv

pub data Metadata : Type 0 where
  preferred_audio_contexts : ℕ → Metadata
  other_metadata : ℕ → Metadata

-- `LeAudioDeviceCapabilities`.
pub record Capabilities : Type 0 where
  pub codec_id : ℕ
  pub codec_specific_capabilities : List CapabilityLtv
  pub metadata : Option (List (Option Metadata))

-- `LeAudioAseConfiguration`; `ignored` stands for its PHY, vendor configuration and metadata.
pub record AseConfiguration : Type 0 where
  pub codec_id : Option ℕ
  pub target_latency : ℕ
  pub codec_configuration : List ConfigurationLtv
  pub ignored : ℕ

-- `LeAudioAseQosConfiguration`.
pub record QosConfiguration : Type 0 where
  pub retransmission_num : ℤ
  pub max_transport_latency_ms : ℤ
  pub ignored : ℕ

pub record AseDirectionConfiguration : Type 0 where
  pub ase_configuration : AseConfiguration
  pub qos_configuration : Option QosConfiguration

-- `LeAudioAseConfigurationSetting`.
pub record AseSetting : Type 0 where
  pub audio_context : ℕ
  pub packing : ℕ
  pub sink_ase_configuration : Option (List (Option AseDirectionConfiguration))
  pub source_ase_configuration : Option (List (Option AseDirectionConfiguration))
  pub flags : Option ℕ

-- `LeAudioConfigurationRequirement`, with the configuration of each `AseDirectionRequirement`.
pub record AseRequirement : Type 0 where
  pub audio_context : ℕ
  pub sink_ase_requirement : Option (List (Option AseConfiguration))
  pub source_ase_requirement : Option (List (Option AseConfiguration))

-- The parts of `AseQosDirectionRequirement` that the tests read.
pub record QosDirectionRequirement : Type 0 where
  pub preferred_retransmission_num : ℤ
  pub max_transport_latency_ms : ℤ
  pub ase_configuration : AseConfiguration

-- `LeAudioAseQosConfigurationRequirement`.
pub record QosRequirement : Type 0 where
  pub audio_context : ℕ
  pub sink_ase_qos_requirement : Option QosDirectionRequirement
  pub source_ase_qos_requirement : Option QosDirectionRequirement

-- The numeric values of the bits in the masks of frequencies and durations, and of the priority that
-- switches a codec off.
pub record Masks : Type 0 where
  pub frequency_bit : SamplingFrequency → ℕ
  pub duration_bit : FrameDuration → ℕ
  pub codec_priority_disabled : ℤ
