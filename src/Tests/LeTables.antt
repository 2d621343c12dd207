-- ===== src/Tests/LeTables.antt =====
-- Examples about the LE audio codec tables.
use device_phh_treble_doze.Base.{pos, ◌≡◌, ◌⊎◌, refl, [], ◌∷◌, none, some, All}
use device_phh_treble_doze.LeTables.Settings.{
  setting_lc3, location_stereo, Scenario, Configuration, CodecConfiguration, StrategyConfiguration,
  Setting,
}
use device_phh_treble_doze.LeTables.Provider.{
  new_tables, parse_from_file, get_le_audio_codec_capabilities,
}
use device_phh_treble_doze.LeTables.Offered.{IsOffered, capabilities_lem}
use device_phh_treble_doze.LeTables.Once.{loaded_once}

abbrev scenario : Scenario
scenario = record { encode = some 1; decode = some 1; broadcast = none }

abbrev configuration : Configuration
configuration = record {
  name = some 1;
  codec_configuration = some 2;
  strategy_configuration = some 3;
}

abbrev codec : CodecConfiguration
codec = record {
  name = some 2;
  codec = some setting_lc3;
  sampling_frequency = some (pos 48000);
  frame_duration_us = some (pos 10000);
  octets_per_codec_frame = some (pos 120);
}

abbrev strategy : StrategyConfiguration
strategy = record {
  name = some 3;
  audio_location = some location_stereo;
  connected_device = some 2;
  channel_count = some 1;
}

abbrev file : Setting
file = record {
  scenario_list = (scenario ∷ []) ∷ [];
  configuration_list = (configuration ∷ []) ∷ [];
  codec_configuration_list = (codec ∷ []) ∷ [];
  strategy_configuration_list = (strategy ∷ []) ∷ [];
}

capabilities_lem_example :
    All (IsOffered file) (get_le_audio_codec_capabilities (some file) new_tables).1
capabilities_lem_example = capabilities_lem file new_tables refl

loaded_once_example :
    (let (t', answer) = get_le_audio_codec_capabilities (some file) new_tables in
      (parse_from_file t' (some file) ≡ none)
      × ((answer ≡ []) ⊎ (get_le_audio_codec_capabilities none t' ≡ (t', answer))))
loaded_once_example = loaded_once (some file) (some file) none new_tables
