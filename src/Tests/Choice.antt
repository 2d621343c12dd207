-- ===== src/Tests/Choice.antt =====
-- Examples about the codec factory.
use device_phh_treble_doze.Base.{pos, ◌≡◌, refl, List, [], ◌∷◌, none, some}
use device_phh_treble_doze.A2dp.Bits.{get, get_range, set_range, find_active_bit}
use device_phh_treble_doze.A2dp.Codec.{CodecId, CodecParameters, stereo, sbc, aac, ok}
use device_phh_treble_doze.A2dp.Codec.Building.{built, choose, set_chosen}
use device_phh_treble_doze.A2dp.Codec.Setup.{set_enabled}
use device_phh_treble_doze.A2dp.Sbc.Format.{
  get_channel_mode_enum, config_subbands, get_subbands_value, config_block_length,
  get_block_length_value, config_sampling_frequency, get_sampling_frequency_value,
}
use device_phh_treble_doze.A2dp.Sbc.Rate.{get_bitrate, get_frame_size}
use device_phh_treble_doze.A2dp.Sbc.Codec as Sbc
use device_phh_treble_doze.A2dp.Sbc.Codec.Parse as SbcParse
use device_phh_treble_doze.A2dp.Sbc.Codec.Build as SbcBuild
use device_phh_treble_doze.A2dp.Aac.Codec as Aac
use device_phh_treble_doze.A2dp.Factory.{
  sbc_codec, info, parse, build, ranked_codecs, find_codec, A2dpRemoteCapabilities,
  A2dpConfigurationHint, A2dpConfiguration, find_remote, found, accept, try_codecs,
  get_configuration,
}
use device_phh_treble_doze.A2dp.Factory.Laws.{IsAnswer, factory_assert}
use device_phh_treble_doze.Tests.Codecs.{sbc_remote, sbc_built, aac_remote, sbc_runs_without_hint}

abbrev no_parameters : CodecParameters
no_parameters = record {
  channel_mode = stereo;
  sampling_frequency_hz = pos 0;
  bitdepth = pos 0;
  min_bitrate = pos 0;
  max_bitrate = pos 0;
}

abbrev start_configuration : A2dpConfiguration
start_configuration = record {
  id = sbc;
  configuration = [];
  parameters = no_parameters;
  remote_seid = 0;
}

abbrev sbc_end_point : A2dpRemoteCapabilities
sbc_end_point = record { seid = 4; id = sbc; capabilities = sbc_remote }

abbrev hint_of : CodecId → A2dpConfigurationHint
hint_of id = record { codec_id = id; codec_parameters = none }

abbrev aac_end_point : A2dpRemoteCapabilities
aac_end_point = record { seid = 5; id = aac; capabilities = aac_remote }

abbrev end_points : List A2dpRemoteCapabilities
end_points = aac_end_point ∷ sbc_end_point ∷ []

factory_finds : find_codec sbc ranked_codecs ≡ some sbc_codec
unfolding find_codec info Sbc.codec_info Aac.codec_info
factory_finds = refl

remote_found : find_remote (info sbc_codec).id end_points ≡ some sbc_end_point
unfolding find_remote info Sbc.codec_info
remote_found = refl

factory_builds : build sbc_codec sbc_remote none [] ≡ built sbc_built
unfolding build
factory_builds = sbc_runs_without_hint

abbrev sbc_answer : A2dpConfiguration
sbc_answer = record {
  id = sbc;
  configuration = sbc_built;
  remote_seid = 4;
  parameters = record {
    channel_mode = stereo;
    sampling_frequency_hz = pos 44100;
    bitdepth = pos 16;
    min_bitrate = pos 46856;
    max_bitrate = pos 1413956;
  };
}

factory_runs : get_configuration end_points (hint_of sbc) start_configuration ≡ found sbc_answer ok
unfolding get_configuration find_codec try_codecs accept find_remote info parse build Sbc.codec_info
    Sbc.local_capabilities Aac.codec_info SbcBuild.build_configuration SbcBuild.build_parts
    SbcBuild.select_bitpool SbcBuild.set_bitpool SbcParse.parse_configuration SbcParse.parameters
    set_range set_enabled set_chosen choose get get_range find_active_bit get_bitrate get_frame_size
    config_subbands get_subbands_value config_block_length get_block_length_value
    config_sampling_frequency get_sampling_frequency_value get_channel_mode_enum
factory_runs = refl

factory_assert_example : (ok ≡ ok) × IsAnswer end_points sbc_answer
factory_assert_example =
    factory_assert end_points (hint_of sbc) start_configuration sbc_answer ok factory_runs
