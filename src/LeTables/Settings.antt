-- ===== src/LeTables/Settings.antt =====
-- The settings file of BluetoothLeAudioCodecsProvider.cpp as the generated parser gives it, and the
-- tests on it. A name is a number, and the name "invalid" is 0. An attribute that is missing is
-- `none`, and so are lists that are missing the empty ones.
use device_phh_treble_doze.Base.{
  ℕ, ℤ, Bool, true, false, ◌&&◌, ◌||◌, List, [], ◌∷◌, ◌++◌, Option, none, some, ◌==◌, if◌then◌else◌,
}

pub data SettingCodec : Type 0 where
  setting_lc3 setting_aptx_adaptive_le setting_aptx_adaptive_lex setting_unknown : SettingCodec

pub data SettingLocation : Type 0 where
  location_mono location_stereo location_unknown : SettingLocation

pub record Scenario : Type 0 where
  pub encode : Option ℕ
  pub decode : Option ℕ
  pub broadcast : Option ℕ

pub record Configuration : Type 0 where
  pub name : Option ℕ
  pub codec_configuration : Option ℕ
  pub strategy_configuration : Option ℕ

pub record CodecConfiguration : Type 0 where
  pub name : Option ℕ
  pub codec : Option SettingCodec
  pub sampling_frequency : Option ℤ
  pub frame_duration_us : Option ℤ
  pub octets_per_codec_frame : Option ℤ

pub record StrategyConfiguration : Type 0 where
  pub name : Option ℕ
  pub audio_location : Option SettingLocation
  pub connected_device : Option ℕ
  pub channel_count : Option ℕ

pub record Setting : Type 0 where
  pub scenario_list : List (List Scenario)
  pub configuration_list : List (List Configuration)
  pub codec_configuration_list : List (List CodecConfiguration)
  pub strategy_configuration_list : List (List StrategyConfiguration)

abbrev pub has {ℓ} : {A : Type ℓ} → Option A → Bool
has none = false
has (some a) = true

-- The getters, which give a default for an attribute that is missing.
abbrev pub value {ℓ} : {A : Type ℓ} → A → Option A → A
value a none = a
value a (some b) = b

unfoldable pub is_valid_codec_configuration : CodecConfiguration → Bool
is_valid_codec_configuration c =
    has c.name
    && (has c.codec
        && (has c.sampling_frequency && (has c.frame_duration_us && has c.octets_per_codec_frame)))

-- The layouts: the location, the number of devices and the number of channels.
unfoldable pub is_layout : SettingLocation → ℕ → ℕ → Bool
is_layout location_stereo devices channels =
    if (devices == 2 && channels == 1) || (devices == 1 && channels == 2)
    then true
    else devices == 0 && channels == 2
is_layout location_mono devices channels = devices == 1 && channels == 1
is_layout location_unknown devices channels = false

unfoldable pub is_valid_strategy_configuration : StrategyConfiguration → Bool
is_valid_strategy_configuration s =
    if has s.name && (has s.audio_location && (has s.connected_device && has s.channel_count))
    then is_layout (value location_unknown s.audio_location) (value 0 s.connected_device)
        (value 0 s.channel_count)
    else false

-- `GetScenarios`.
abbrev pub keep_scenarios : List Scenario → List Scenario
keep_scenarios [] = []
keep_scenarios (s ∷ ss) =
    if has s.encode && has s.decode then s ∷ keep_scenarios ss else keep_scenarios ss

unfoldable pub get_scenarios : List (List Scenario) → List Scenario
get_scenarios [] = []
get_scenarios (ss ∷ sss) = keep_scenarios ss ++ get_scenarios sss

-- A map by names, whose `insert` keeps what is there, and its `find`.
abbrev pub Map {ℓ} : Type ℓ → Type ℓ
Map A = List (ℕ × A)

unfoldable pub find_name {ℓ} : {A : Type ℓ} → Map A → ℕ → Option A
find_name [] n = none
find_name ((m, a) ∷ map) n = if m == n then some a else find_name map n

unfoldable pub insert_name {ℓ} : {A : Type ℓ} → ℕ → A → Map A → Map A
insert_name n a map = if has (find_name map n) then map else (n, a) ∷ map

-- The loops that fill a map with the valid entries of a list, and of a list of lists.
unfoldable pub update_from {ℓ} : {A : Type ℓ} → (A → Bool) → (A → Option ℕ) → List A → Map A → Map A
update_from valid name_of [] map = map
update_from valid name_of (a ∷ xs) map =
    update_from valid name_of xs (if valid a then insert_name (value 0 (name_of a)) a map else map)

unfoldable pub update_map {ℓ} :
    {A : Type ℓ} → (A → Bool) → (A → Option ℕ) → List (List A) → Map A → Map A
update_map valid name_of [] map = map
update_map valid name_of (xs ∷ xss) map =
    update_map valid name_of xss (update_from valid name_of xs map)

-- The test of `UpdateConfigurationsToMap`.
unfoldable pub is_named_configuration : Configuration → Bool
is_named_configuration c = has c.name && (has c.codec_configuration && has c.strategy_configuration)
