-- ===== src/LeTables/Once.antt =====
-- BluetoothLeAudioCodecsProvider.cpp loads its file once.
use device_phh_treble_doze.Base.{
  ◌≡◌, ◌⊎◌, inl, inr, refl, arith, true, false, not, ◌&&◌, List, [], ◌∷◌, Option, none, some,
}
use device_phh_treble_doze.LeTables.Settings.{Setting}
use device_phh_treble_doze.LeTables.Compose.{CapabilitiesSetting}
use device_phh_treble_doze.LeTables.Provider.{
  answer_of, Tables, parse_from_file, load_configuration_to_map, clear_le_audio_codec_capabilities,
  is_nil, get_le_audio_codec_capabilities,
}

-- What an answer leaves.
abbrev IsSettled : Tables × List CapabilitiesSetting → Type 0
IsSettled (t, answer) =
    (t.capabilities ≡ answer) × ((is_nil answer && not t.is_invalid_file_content) ≡ false)

answer_of-IsSettled :
    (loaded : Tables)
    → loaded.capabilities ≡ []
    → loaded.is_invalid_file_content ≡ true
    → IsSettled (answer_of loaded)
unfolding answer_of
answer_of-IsSettled loaded empty invalid = ground arith

loaded_lem :
    (file : Setting) (t : Tables)
    → ((load_configuration_to_map file t).capabilities ≡ [])
      × ((load_configuration_to_map file t).is_invalid_file_content ≡ t.is_invalid_file_content)
unfolding load_configuration_to_map clear_le_audio_codec_capabilities
loaded_lem file t = (refl, refl)

get-IsSettled :
    (file : Option Setting) (t : Tables) → IsSettled (get_le_audio_codec_capabilities file t)
unfolding get_le_audio_codec_capabilities
get-IsSettled none t = ground arith
get-IsSettled (some setting) t =
    let before : Tables = record t { is_invalid_file_content = true } in
    let (empty, invalid) = loaded_lem setting before in
    let settled = answer_of-IsSettled (load_configuration_to_map setting before) empty invalid in
    ground (arith, settled)

settled_lem :
    (file' file'' : Option Setting) (t : Tables) (answer : List CapabilitiesSetting)
    → IsSettled (t, answer)
    → (parse_from_file t file' ≡ none)
      × ((answer ≡ []) ⊎ (get_le_audio_codec_capabilities file'' t ≡ (t, answer)))
unfolding get_le_audio_codec_capabilities parse_from_file
settled_lem file' file'' t [] (same, invalid) = (ground (arith, same, invalid), inl refl)
settled_lem file' file'' t (o ∷ os) (same, invalid) =
    (ground (arith, same), inr (ground (arith, same)))

-- After an answer, whatever it was, the file is not parsed again; and the answer was empty, or every
-- later call gives it again and changes nothing, whatever file it is handed.
pub loaded_once :
    (file file' file'' : Option Setting) (t : Tables)
    → (let (t', answer) = get_le_audio_codec_capabilities file t in
        (parse_from_file t' file' ≡ none)
        × ((answer ≡ []) ⊎ (get_le_audio_codec_capabilities file'' t' ≡ (t', answer))))
loaded_once file file' file'' t =
    let (t', answer) = get_le_audio_codec_capabilities file t in
    settled_lem file' file'' t' answer (get-IsSettled file t)
