-- ===== src/LeTables/Provider.antt =====
-- The static state of BluetoothLeAudioCodecsProvider.cpp, and the calls that load and answer the
-- capabilities.
use device_phh_treble_doze.Base.{
  Bool, true, false, ◌||◌, List, [], ◌∷◌, Option, none, some, if◌then◌else◌,
}
use device_phh_treble_doze.LeTables.Settings.{
  Scenario, Setting, get_scenarios, update_map, is_named_configuration,
  is_valid_codec_configuration, is_valid_strategy_configuration,
}
use device_phh_treble_doze.LeTables.Compose.{
  Maps, CapabilitiesSetting, compose_le_audio_codec_capabilities,
}

pub record Tables : Type 0 where
  pub capabilities : List CapabilitiesSetting
  pub is_invalid_file_content : Bool
  pub scenarios : List Scenario
  pub maps : Maps

abbrev pub no_maps : Maps
no_maps = record { configurations = []; codec_configurations = []; strategy_configurations = [] }

abbrev pub new_tables : Tables
new_tables = record {
  capabilities = [];
  is_invalid_file_content = false;
  scenarios = [];
  maps = no_maps;
}

abbrev pub is_nil {ℓ} : {A : Type ℓ} → List A → Bool
is_nil [] = true
is_nil (x ∷ xs) = false

-- `ParseFromLeAudioOffloadSettingFile`, with what the file gives.
unfoldable pub parse_from_file : Tables → Option Setting → Option Setting
parse_from_file t file =
    if is_nil t.capabilities then if t.is_invalid_file_content then none else file else none

unfoldable pub clear_le_audio_codec_capabilities : Tables → Tables
clear_le_audio_codec_capabilities t = record t { capabilities = []; scenarios = []; maps = no_maps }

-- Each map is filled only when what comes before it is not empty.
unfoldable pub load_configuration_to_map : Setting → Tables → Tables
load_configuration_to_map file t =
    let cleared = clear_le_audio_codec_capabilities t in
    let scenarios = get_scenarios file.scenario_list in
    let configurations =
      update_map is_named_configuration (λ c. c.name) file.configuration_list [] in
    let codecs =
      update_map is_valid_codec_configuration (λ c. c.name) file.codec_configuration_list [] in
    let strategies =
      update_map is_valid_strategy_configuration (λ s. s.name) file.strategy_configuration_list
        [] in
    let no_scenario = is_nil scenarios in
    let no_configuration = no_scenario || is_nil configurations in
    let no_codec = no_configuration || is_nil codecs in
    record cleared {
      scenarios = scenarios;
      maps = record {
        configurations = if no_scenario then [] else configurations;
        codec_configurations = if no_configuration then [] else codecs;
        strategy_configurations = if no_codec then [] else strategies;
      };
    }

abbrev pub lacks : Tables → Bool
lacks t =
    is_nil t.scenarios
    || (is_nil t.maps.configurations
        || (is_nil t.maps.codec_configurations || is_nil t.maps.strategy_configurations))

-- What follows the loading.
unfoldable pub answer_of : Tables → Tables × List CapabilitiesSetting
answer_of loaded =
    if lacks loaded
    then (loaded, [])
    else (let answer = compose_le_audio_codec_capabilities loaded.maps loaded.scenarios in
        (record loaded { capabilities = answer; is_invalid_file_content = is_nil answer }, answer))

unfoldable pub get_le_audio_codec_capabilities :
    Option Setting → Tables → Tables × List CapabilitiesSetting
get_le_audio_codec_capabilities file t =
    if is_nil t.capabilities
    then elim file [
      | none ↦ (record t { is_invalid_file_content = true }, [])
      | some setting ↦
          answer_of
            (load_configuration_to_map setting (record t { is_invalid_file_content = true }))
    ]
    else (t, t.capabilities)
