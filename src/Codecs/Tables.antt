-- ===== src/Codecs/Tables.antt =====
-- BluetoothAudioCodecs.cpp: the tables of capabilities, what is offered, and the tests of validity.
use device_phh_treble_doze.Base.{
  pos, Bool, true, false, not, ◌&&◌, ◌||◌, List, [], ◌∷◌, map, some, int_leb, int_eqb,
  if◌then◌else◌,
}
use device_phh_treble_doze.A2dp.Codec.{mono, stereo}
use device_phh_treble_doze.Session.Types.{SessionType, is_offload_a2dp}
use device_phh_treble_doze.Codecs.{
  CodecType, sbc, aac, aptx, aptx_hd, ldac, opus, sbc_mono, sbc_joint_stereo, alloc_md_l, mpeg2_lc,
  ldac_dual, ldac_stereo, high, channel_mode_eqb, sbc_mode_eqb, method_eqb, object_eqb,
  ldac_mode_eqb, quality_eqb, contained_in_vector, SbcCapabilities, AacCapabilities,
  LdacCapabilities, AptxCapabilities, OpusCapabilities, CodecSpecific, sbc_config, aac_config,
  ldac_config, aptx_config, opus_config, CodecConfiguration, no_capabilities, sbc_capabilities,
  aac_capabilities, ldac_capabilities, aptx_capabilities, opus_capabilities, CodecCapabilities,
}

abbrev pub k_default_offload_sbc_capability : SbcCapabilities
k_default_offload_sbc_capability = record {
  sample_rate_hz = pos 44100 ∷ [];
  channel_mode = sbc_mono ∷ sbc_joint_stereo ∷ [];
  block_length = pos 4 ∷ pos 8 ∷ pos 12 ∷ pos 16 ∷ [];
  num_subbands = pos 8 ∷ [];
  alloc_method = alloc_md_l ∷ [];
  bits_per_sample = pos 16 ∷ [];
  min_bitpool = pos 2;
  max_bitpool = pos 53;
}

abbrev pub k_default_offload_aac_capability : AacCapabilities
k_default_offload_aac_capability = record {
  object_type = mpeg2_lc ∷ [];
  sample_rate_hz = pos 44100 ∷ [];
  channel_mode = stereo ∷ [];
  variable_bit_rate_supported = true;
  bits_per_sample = pos 16 ∷ [];
}

abbrev pub k_default_offload_ldac_capability : LdacCapabilities
k_default_offload_ldac_capability = record {
  sample_rate_hz = pos 44100 ∷ pos 48000 ∷ pos 88200 ∷ pos 96000 ∷ [];
  channel_mode = ldac_dual ∷ ldac_stereo ∷ [];
  quality_index = high ∷ [];
  bits_per_sample = pos 16 ∷ pos 24 ∷ pos 32 ∷ [];
}

abbrev pub k_default_offload_aptx_capability : AptxCapabilities
k_default_offload_aptx_capability = record {
  sample_rate_hz = pos 44100 ∷ pos 48000 ∷ [];
  channel_mode = stereo ∷ [];
  bits_per_sample = pos 16 ∷ [];
}

abbrev pub k_default_offload_aptx_hd_capability : AptxCapabilities
k_default_offload_aptx_hd_capability = record {
  sample_rate_hz = pos 44100 ∷ pos 48000 ∷ [];
  channel_mode = stereo ∷ [];
  bits_per_sample = pos 24 ∷ [];
}

abbrev pub k_default_offload_opus_capability : OpusCapabilities
k_default_offload_opus_capability = record {
  sampling_frequency_hz = pos 48000 ∷ [];
  frame_duration_us = pos 10000 ∷ pos 20000 ∷ [];
  channel_mode = mono ∷ stereo ∷ [];
}

abbrev pub k_default_offload_a2dp_codec_capabilities : List CodecCapabilities
k_default_offload_a2dp_codec_capabilities =
    map (λ t. record { codec_type = t; capabilities = no_capabilities })
      (sbc ∷ aac ∷ ldac ∷ aptx ∷ aptx_hd ∷ opus ∷ [])

-- The `switch` on the type of a codec, for one entry.
unfoldable pub fill_in : CodecCapabilities → CodecCapabilities
fill_in c = elim c.codec_type [
  | sbc ↦ record c { capabilities = sbc_capabilities k_default_offload_sbc_capability }
  | aac ↦ record c { capabilities = aac_capabilities k_default_offload_aac_capability }
  | ldac ↦ record c { capabilities = ldac_capabilities k_default_offload_ldac_capability }
  | aptx ↦ record c { capabilities = aptx_capabilities k_default_offload_aptx_capability }
  | aptx_hd ↦ record c { capabilities = aptx_capabilities k_default_offload_aptx_hd_capability }
  | opus ↦ record c { capabilities = opus_capabilities k_default_offload_opus_capability }
  | _ ↦ c
]

unfoldable pub get_a2dp_offload_codec_capabilities : SessionType → List CodecCapabilities
get_a2dp_offload_codec_capabilities t =
    if is_offload_a2dp t then map fill_in k_default_offload_a2dp_codec_capabilities else []

unfoldable pub is_offload_sbc_configuration_valid : CodecSpecific → Bool
is_offload_sbc_configuration_valid (sbc_config d) =
    let k = k_default_offload_sbc_capability in
    contained_in_vector int_eqb k.sample_rate_hz d.sample_rate_hz
    && (contained_in_vector int_eqb k.block_length d.block_length
        && (contained_in_vector int_eqb k.num_subbands d.num_subbands
            && (contained_in_vector int_eqb k.bits_per_sample d.bits_per_sample
                && (contained_in_vector sbc_mode_eqb k.channel_mode d.channel_mode
                    && (contained_in_vector method_eqb k.alloc_method d.alloc_method
                        && (int_leb d.min_bitpool d.max_bitpool
                            && (int_leb k.min_bitpool d.min_bitpool
                                && int_leb d.max_bitpool k.max_bitpool)))))))
is_offload_sbc_configuration_valid _ = false

unfoldable pub is_offload_aac_configuration_valid : CodecSpecific → Bool
is_offload_aac_configuration_valid (aac_config d) =
    let k = k_default_offload_aac_capability in
    contained_in_vector int_eqb k.sample_rate_hz d.sample_rate_hz
    && (contained_in_vector int_eqb k.bits_per_sample d.bits_per_sample
        && (contained_in_vector channel_mode_eqb k.channel_mode d.channel_mode
            && (contained_in_vector object_eqb k.object_type d.object_type
                && (not d.variable_bit_rate_enabled || k.variable_bit_rate_supported))))
is_offload_aac_configuration_valid _ = false

unfoldable pub is_offload_ldac_configuration_valid : CodecSpecific → Bool
is_offload_ldac_configuration_valid (ldac_config d) =
    let k = k_default_offload_ldac_capability in
    contained_in_vector int_eqb k.sample_rate_hz d.sample_rate_hz
    && (contained_in_vector int_eqb k.bits_per_sample d.bits_per_sample
        && (contained_in_vector ldac_mode_eqb k.channel_mode d.channel_mode
            && contained_in_vector quality_eqb k.quality_index d.quality_index))
is_offload_ldac_configuration_valid _ = false

-- The tests of aptX and aptX HD, which differ in the table.
unfoldable pub is_aptx_valid : AptxCapabilities → CodecSpecific → Bool
is_aptx_valid k (aptx_config d) =
    contained_in_vector int_eqb k.sample_rate_hz d.sample_rate_hz
    && (contained_in_vector int_eqb k.bits_per_sample d.bits_per_sample
        && contained_in_vector channel_mode_eqb k.channel_mode d.channel_mode)
is_aptx_valid k _ = false

unfoldable pub is_offload_aptx_configuration_valid : CodecSpecific → Bool
is_offload_aptx_configuration_valid = is_aptx_valid k_default_offload_aptx_capability

unfoldable pub is_offload_aptx_hd_configuration_valid : CodecSpecific → Bool
is_offload_aptx_hd_configuration_valid = is_aptx_valid k_default_offload_aptx_hd_capability

unfoldable pub is_offload_opus_configuration_valid : CodecSpecific → Bool
is_offload_opus_configuration_valid (opus_config (some d)) =
    let k = k_default_offload_opus_capability in
    contained_in_vector int_eqb k.sampling_frequency_hz d.sampling_frequency_hz
    && (contained_in_vector int_eqb k.frame_duration_us d.frame_duration_us
        && contained_in_vector channel_mode_eqb k.channel_mode d.channel_mode)
is_offload_opus_configuration_valid _ = false

-- The `switch` of `IsOffloadCodecConfigurationValid`.
unfoldable pub is_valid_for : CodecType → CodecSpecific → Bool
is_valid_for sbc d = is_offload_sbc_configuration_valid d
is_valid_for aac d = is_offload_aac_configuration_valid d
is_valid_for ldac d = is_offload_ldac_configuration_valid d
is_valid_for aptx d = is_offload_aptx_configuration_valid d
is_valid_for aptx_hd d = is_offload_aptx_hd_configuration_valid d
is_valid_for opus d = is_offload_opus_configuration_valid d
is_valid_for _ d = false

unfoldable pub is_offload_codec_configuration_valid : SessionType → CodecConfiguration → Bool
is_offload_codec_configuration_valid t config =
    if is_offload_a2dp t then is_valid_for config.codec_type config.config else false
