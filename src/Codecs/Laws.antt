-- ===== src/Codecs/Laws.antt =====
-- The tests of validity and the capabilities that are offered.
use device_phh_treble_doze.Base.{
  ◌≡◌, Bool, true, false, ◌&&◌, ◌||◌, List, [], ◌∷◌, map, none, some, arith, int_leb, int_eqb,
  if◌then◌else◌,
}
use device_phh_treble_doze.Session.Types.{SessionType}
use device_phh_treble_doze.Codecs.{
  CodecType, unknown_codec, sbc, aac, aptx, aptx_hd, ldac, lc3, vendor, aptx_adaptive, opus,
  aptx_adaptive_le, aptx_adaptive_lex, channel_mode_eqb, sbc_mode_eqb, method_eqb, object_eqb,
  ldac_mode_eqb, quality_eqb, contained_in_vector, CodecSpecific, sbc_config, aac_config,
  ldac_config, aptx_config, opus_config, other_config, CodecConfiguration, Capabilities,
  sbc_capabilities, aac_capabilities, ldac_capabilities, aptx_capabilities, opus_capabilities,
  CodecCapabilities,
}
use device_phh_treble_doze.Codecs.Tables.{
  k_default_offload_a2dp_codec_capabilities, fill_in, get_a2dp_offload_codec_capabilities,
  is_offload_sbc_configuration_valid, is_offload_aac_configuration_valid,
  is_offload_ldac_configuration_valid, is_aptx_valid, is_offload_aptx_configuration_valid,
  is_offload_aptx_hd_configuration_valid, is_offload_opus_configuration_valid, is_valid_for,
  is_offload_codec_configuration_valid,
}

abbrev pub type_eqb : CodecType → CodecType → Bool
type_eqb unknown_codec unknown_codec = true
type_eqb sbc sbc = true
type_eqb aac aac = true
type_eqb aptx aptx = true
type_eqb aptx_hd aptx_hd = true
type_eqb ldac ldac = true
type_eqb lc3 lc3 = true
type_eqb vendor vendor = true
type_eqb aptx_adaptive aptx_adaptive = true
type_eqb opus opus = true
type_eqb aptx_adaptive_le aptx_adaptive_le = true
type_eqb aptx_adaptive_lex aptx_adaptive_lex = true
type_eqb _ _ = false

-- A configuration takes each of its values from the capabilities, and a variable bit rate or a range
-- of bitpools within theirs.
abbrev pub supports : Capabilities → CodecSpecific → Bool
supports (sbc_capabilities k) (sbc_config d) =
    int_leb k.min_bitpool d.min_bitpool
    && (int_leb d.min_bitpool d.max_bitpool
        && (int_leb d.max_bitpool k.max_bitpool
            && (contained_in_vector int_eqb k.sample_rate_hz d.sample_rate_hz
                && (contained_in_vector sbc_mode_eqb k.channel_mode d.channel_mode
                    && (contained_in_vector int_eqb k.block_length d.block_length
                        && (contained_in_vector int_eqb k.num_subbands d.num_subbands
                            && (contained_in_vector method_eqb k.alloc_method d.alloc_method
                                && contained_in_vector int_eqb k.bits_per_sample
                                    d.bits_per_sample)))))))
supports (aac_capabilities k) (aac_config d) =
    contained_in_vector object_eqb k.object_type d.object_type
    && (contained_in_vector int_eqb k.sample_rate_hz d.sample_rate_hz
        && (contained_in_vector channel_mode_eqb k.channel_mode d.channel_mode
            && ((if d.variable_bit_rate_enabled then k.variable_bit_rate_supported else true)
                && contained_in_vector int_eqb k.bits_per_sample d.bits_per_sample)))
supports (ldac_capabilities k) (ldac_config d) =
    contained_in_vector int_eqb k.sample_rate_hz d.sample_rate_hz
    && (contained_in_vector ldac_mode_eqb k.channel_mode d.channel_mode
        && (contained_in_vector quality_eqb k.quality_index d.quality_index
            && contained_in_vector int_eqb k.bits_per_sample d.bits_per_sample))
supports (aptx_capabilities k) (aptx_config d) =
    contained_in_vector int_eqb k.sample_rate_hz d.sample_rate_hz
    && (contained_in_vector channel_mode_eqb k.channel_mode d.channel_mode
        && contained_in_vector int_eqb k.bits_per_sample d.bits_per_sample)
supports (opus_capabilities k) (opus_config (some d)) =
    contained_in_vector int_eqb k.sampling_frequency_hz d.sampling_frequency_hz
    && (contained_in_vector int_eqb k.frame_duration_us d.frame_duration_us
        && contained_in_vector channel_mode_eqb k.channel_mode d.channel_mode)
supports _ _ = false

-- Some entry of the list is for the codec and supports the configuration.
abbrev pub is_offered : CodecType → CodecSpecific → List CodecCapabilities → Bool
is_offered t d [] = false
is_offered t d (c ∷ cs) =
    (type_eqb c.codec_type t && supports c.capabilities d) || is_offered t d cs

valid-offered :
    (t : CodecType) (d : CodecSpecific)
    → is_valid_for t d ≡ is_offered t d (map fill_in k_default_offload_a2dp_codec_capabilities)
unfolding is_valid_for fill_in is_offload_sbc_configuration_valid is_offload_aac_configuration_valid
    is_offload_ldac_configuration_valid is_aptx_valid is_offload_aptx_configuration_valid
    is_offload_aptx_hd_configuration_valid is_offload_opus_configuration_valid
valid-offered t (sbc_config d) = ground arith
valid-offered t (aac_config d) = ground arith
valid-offered t (ldac_config d) = ground arith
valid-offered t (aptx_config d) = ground arith
valid-offered t (opus_config none) = ground arith
valid-offered t (opus_config (some d)) = ground arith
valid-offered t (other_config n) = ground arith

-- For every session type, `IsOffloadCodecConfigurationValid` accepts a configuration exactly when
-- `GetA2dpOffloadCodecCapabilities` offers an entry of its codec that supports all of its values.
pub valid_iff_offered :
    (t : SessionType) (config : CodecConfiguration)
    → is_offload_codec_configuration_valid t config
      ≡ is_offered config.codec_type config.config (get_a2dp_offload_codec_capabilities t)
unfolding is_offload_codec_configuration_valid get_a2dp_offload_codec_capabilities
valid_iff_offered t config = ground (arith, valid-offered config.codec_type config.config)
