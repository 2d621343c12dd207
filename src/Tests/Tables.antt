-- ===== src/Tests/Tables.antt =====
-- Examples about the tables of codecs and the queue of the HFP software provider.
use device_phh_treble_doze.Base.{pos, ◌≡◌, refl, true, some}
use device_phh_treble_doze.A2dp.Codec.{mono}
use device_phh_treble_doze.Session.Types.{a2dp_hardware_offload_encoding}
use device_phh_treble_doze.Codecs.{
  sbc, sbc_joint_stereo, alloc_md_l, sbc_config, CodecConfiguration, contained_in_vector,
}
use device_phh_treble_doze.Codecs.Tables.{
  get_a2dp_offload_codec_capabilities, is_offload_codec_configuration_valid, is_valid_for,
  is_offload_sbc_configuration_valid,
}
use device_phh_treble_doze.Codecs.Laws.{is_offered, valid_iff_offered}
use device_phh_treble_doze.Codecs.Software.{
  PcmConfiguration, is_software_pcm_configuration_valid, hfp_data_mq_size, is_valid_hfp_config,
  hfp_queue,
}

abbrev pub sbc_44100 : CodecConfiguration
sbc_44100 = record {
  codec_type = sbc;
  config = sbc_config (record {
    sample_rate_hz = pos 44100;
    channel_mode = sbc_joint_stereo;
    block_length = pos 16;
    num_subbands = pos 8;
    alloc_method = alloc_md_l;
    bits_per_sample = pos 16;
    min_bitpool = pos 2;
    max_bitpool = pos 53;
  });
}

sbc_44100_valid :
    is_offload_codec_configuration_valid a2dp_hardware_offload_encoding sbc_44100 ≡ true
unfolding is_offload_codec_configuration_valid is_valid_for is_offload_sbc_configuration_valid
    contained_in_vector
sbc_44100_valid = refl

valid_iff_offered_example :
    is_offload_codec_configuration_valid a2dp_hardware_offload_encoding sbc_44100
    ≡ is_offered sbc sbc_44100.config
        (get_a2dp_offload_codec_capabilities a2dp_hardware_offload_encoding)
valid_iff_offered_example = valid_iff_offered a2dp_hardware_offload_encoding sbc_44100

abbrev pub wide_band : PcmConfiguration
wide_band = record {
  sample_rate_hz = pos 16000;
  channel_mode = mono;
  bits_per_sample = pos 16;
  data_interval_us = pos 7500;
}

wide_band_queue : hfp_queue wide_band ≡ some 480
unfolding hfp_queue is_software_pcm_configuration_valid is_valid_hfp_config hfp_data_mq_size
    contained_in_vector
wide_band_queue = refl
