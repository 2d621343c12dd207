-- ===== src/LeTables/Offered.antt =====
-- What BluetoothLeAudioCodecsProvider.cpp offers.
use device_phh_treble_doze.Base.{
  ℕ, ◌≡◌, ◌≢◌, inl, inr, refl, Bool-cases, arith, true, false, List, [], ◌∷◌, Option, none, some,
  All,
}
use device_phh_treble_doze.Codecs.{
  CodecType, unknown_codec, lc3, aptx_adaptive_le, aptx_adaptive_lex,
}
use device_phh_treble_doze.LeTables.Settings.{
  CodecConfiguration, StrategyConfiguration, Setting, location_unknown, value, is_layout,
  is_valid_strategy_configuration, Scenario, setting_unknown,
}
use device_phh_treble_doze.LeTables.Compose.{
  Maps, CapabilitiesSetting, UnicastCapability, BroadcastCapability, compose_lc3_capability,
  find_parts, get_unicast_capability, get_broadcast_capability, unicast_of, broadcast_of,
  compose_unicast_capability, capabilities_of, is_empty, compose_le_audio_codec_capabilities,
  get_codec_type,
}
use device_phh_treble_doze.LeTables.Provider.{
  answer_of, Tables, load_configuration_to_map, lacks, get_le_audio_codec_capabilities,
}
use device_phh_treble_doze.LeTables.Sound.{
  IsCodec, IsStrategy, AreFrom, AreParts, load-AreFrom, find_parts-AreParts,
}

-- A capability is that of a valid codec configuration and a valid strategy of the file.
abbrev pub IsUnicast : Setting → Option UnicastCapability → Type 0
IsUnicast file none = Unit
IsUnicast file (some u) =
    (c : CodecConfiguration) × (s : StrategyConfiguration) × IsCodec file c
    × IsStrategy file s
    × (u.codec_type ≢ unknown_codec)
    × (u.capability ≡ compose_lc3_capability c)
    × (is_layout (value location_unknown s.audio_location) u.device_count u.channel_count_per_device
        ≡ true)

abbrev pub IsBroadcast : Setting → Option BroadcastCapability → Type 0
IsBroadcast file none = Unit
IsBroadcast file (some b) =
    (c : CodecConfiguration) × (s : StrategyConfiguration) × IsCodec file c
    × IsStrategy file s
    × (b.codec_type ≡ lc3)
    × (b.capability ≡ compose_lc3_capability c)
    × (b.channel_count_per_stream ≡ value 0 s.channel_count)

strategy_layout :
    (s : StrategyConfiguration)
    → is_valid_strategy_configuration s ≡ true
    → is_layout
        (value location_unknown s.audio_location)
        (value 0 s.connected_device)
        (value 0 s.channel_count)
      ≡ true
unfolding is_valid_strategy_configuration
strategy_layout s valid = ground arith

unicast_of-IsUnicast :
    (file : Setting) (type : CodecType) (c : CodecConfiguration) (s : StrategyConfiguration)
    → IsCodec file c
    → IsStrategy file s
    → IsUnicast file (unicast_of type c s)
unfolding unicast_of compose_unicast_capability
unicast_of-IsUnicast file lc3 c s p q = (c, s, p, q, ground arith, refl, strategy_layout s q.1)
unicast_of-IsUnicast file aptx_adaptive_le c s p q =
    (c, s, p, q, ground arith, refl, strategy_layout s q.1)
unicast_of-IsUnicast file aptx_adaptive_lex c s p q =
    (c, s, p, q, ground arith, refl, strategy_layout s q.1)
unicast_of-IsUnicast file _ c s p q = tt

broadcast_of-IsBroadcast :
    (file : Setting) (type : CodecType) (c : CodecConfiguration) (s : StrategyConfiguration)
    → IsCodec file c
    → IsStrategy file s
    → IsBroadcast file (broadcast_of type c s)
unfolding broadcast_of
broadcast_of-IsBroadcast file lc3 c s p q = (c, s, p, q, refl, refl, refl)
broadcast_of-IsBroadcast file _ c s p q = tt

-- Something is offered, and everything that is offered is of the file.
abbrev pub IsOffered : Setting → CapabilitiesSetting → Type 0
IsOffered file o =
    (is_empty o ≡ false)
    × IsUnicast file o.unicast_encode
    × IsUnicast file o.unicast_decode
    × IsBroadcast file o.broadcast

module _ (file : Setting) (maps : Maps) (h : AreFrom file maps) where
  get_unicast_lem : (d : ℕ) → IsUnicast file (get_unicast_capability maps d)
  unfolding get_unicast_capability
  get_unicast_lem d = go (find_parts maps d) (find_parts-AreParts file maps h d)
    where
      go :
          (o : Option (CodecConfiguration × StrategyConfiguration))
          → AreParts file o
          → IsUnicast file (elim o [
            | none ↦ none
            | some (c, s) ↦ unicast_of (get_codec_type (value setting_unknown c.codec)) c s
          ])
      go none p = tt
      go (some (c, s)) (p, q) =
          unicast_of-IsUnicast file (get_codec_type (value setting_unknown c.codec)) c s p q

  get_broadcast_lem : (d : ℕ) → IsBroadcast file (get_broadcast_capability maps d)
  unfolding get_broadcast_capability
  get_broadcast_lem d = go (find_parts maps d) (find_parts-AreParts file maps h d)
    where
      go :
          (o : Option (CodecConfiguration × StrategyConfiguration))
          → AreParts file o
          → IsBroadcast file (elim o [
            | none ↦ none
            | some (c, s) ↦ broadcast_of (get_codec_type (value setting_unknown c.codec)) c s
          ])
      go none p = tt
      go (some (c, s)) (p, q) =
          broadcast_of-IsBroadcast file (get_codec_type (value setting_unknown c.codec)) c s p q

  optional_lem :
      (o : Option ℕ)
      → IsBroadcast file (elim o [ none ↦ none | some name ↦ get_broadcast_capability maps name ])
  optional_lem none = tt
  optional_lem (some name) = get_broadcast_lem name

  compose-IsOffered :
      (ss : List Scenario) → All (IsOffered file) (compose_le_audio_codec_capabilities maps ss)
  unfolding compose_le_audio_codec_capabilities capabilities_of
  compose-IsOffered [] = tt
  compose-IsOffered (s ∷ ss) = elim (Bool-cases (is_empty (capabilities_of maps s))) [
    | inl empty ↦ rw empty (compose-IsOffered ss)
    | inr full ↦ rw full (
      (
        full,
        get_unicast_lem (value 0 s.encode),
        get_unicast_lem (value 0 s.decode),
        optional_lem s.broadcast,
      ),
      compose-IsOffered ss,
    )
  ]

answer_of-IsOffered :
    (file : Setting) (loaded : Tables)
    → AreFrom file loaded.maps
    → All (IsOffered file) (answer_of loaded).1
unfolding answer_of
answer_of-IsOffered file loaded h = elim (Bool-cases (lacks loaded)) [
  | inl short ↦ rw (answer_of, short) tt
  | inr full ↦ rw (answer_of, full) (compose-IsOffered file loaded.maps h loaded.scenarios)
]

-- With no capabilities stored, the answer to a file offers something in each setting, and each
-- unicast capability has a known codec, the values of a valid codec configuration of the file and the
-- layout of a valid strategy; each broadcast capability is of LC3, with the values of a valid codec
-- configuration and the channels of a valid strategy.
pub capabilities_lem :
    (file : Setting) (t : Tables)
    → t.capabilities ≡ []
    → All (IsOffered file) (get_le_audio_codec_capabilities (some file) t).1
unfolding get_le_audio_codec_capabilities
capabilities_lem file t empty =
    let before : Tables = record t { is_invalid_file_content = true } in
    let loaded = load_configuration_to_map file before in
    rw (get_le_audio_codec_capabilities, empty) (answer_of-IsOffered file _ (load-AreFrom file _))
