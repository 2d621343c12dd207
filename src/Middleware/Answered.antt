-- ===== src/Middleware/Answered.antt =====
-- What `GetAudioConfig` of the 2.1 middleware in HidlToAidlMiddleware.cpp answers.
use device_phh_treble_doze.Base.{ℕ, ◌≡◌, ◌≢◌, ◌↔◌, ◌∙◌, sym, arith, true, List, none}
use device_phh_treble_doze.Session.Types.{
  SessionType, unknown, is_offload_le_audio_unicast, ConfigTag,
}
use device_phh_treble_doze.Session.State.{new_session, accepts_config, get_audio_config}
use device_phh_treble_doze.Session.Trace.{Call, run, session_run}
use device_phh_treble_doze.Middleware.Convert.{
  HidlSessionType, from_session_type_2_1, hidl_unknown, hidl_a2dp_software_encoding,
  hidl_a2dp_hardware_offload, hidl_hearing_aid_software_encoding, hidl_le_audio_software_encoding,
  hidl_le_audio_software_decoded, hidl_le_audio_hardware_offload_encoding,
  hidl_le_audio_hardware_offload_decoding,
}
use device_phh_treble_doze.Middleware.Configs.{Meanings, get_audio_config_2_1}
use device_phh_treble_doze.Middleware.Kept.{is_fatal, fatal_iff}

-- Of the kinds that a session of a HIDL type accepts, LE audio is the one that is fatal.
accepted_fatal :
    (k : Meanings) (h : HidlSessionType) (tag : ConfigTag) (content : ℕ)
    → accepts_config (from_session_type_2_1 h) tag ≡ true
    → is_fatal k (record { tag = tag; content = content })
      ≡ is_offload_le_audio_unicast (from_session_type_2_1 h)
unfolding accepts_config from_session_type_2_1
accepted_fatal k hidl_unknown tag content e = ground arith
accepted_fatal k hidl_a2dp_software_encoding tag content e = ground arith
accepted_fatal k hidl_a2dp_hardware_offload tag content e = ground arith
accepted_fatal k hidl_hearing_aid_software_encoding tag content e = ground arith
accepted_fatal k hidl_le_audio_software_encoding tag content e = ground arith
accepted_fatal k hidl_le_audio_software_decoded tag content e = ground arith
accepted_fatal k hidl_le_audio_hardware_offload_encoding tag content e = ground arith
accepted_fatal k hidl_le_audio_hardware_offload_decoding tag content e = ground arith

-- After any sequence of calls on a new session of a HIDL type other than unknown, `GetAudioConfig` of
-- 2.1 ends the process if the type is one of the two of LE audio offload, ready or not, and answers
-- with a configuration for every other type.
pub get_audio_config_iff :
    (k : Meanings) (code : SessionType → ℕ) (h : HidlSessionType) (cs : List Call)
    → from_session_type_2_1 h ≢ unknown
    → (is_offload_le_audio_unicast (from_session_type_2_1 h) ≡ true)
      ↔ (get_audio_config_2_1 k (run code (new_session (from_session_type_2_1 h)) cs) ≡ none)
unfolding get_audio_config_2_1
get_audio_config_iff k code h cs known =
    let config = get_audio_config (run code (new_session (from_session_type_2_1 h)) cs) in
    let (accepted, distinct) = session_run code (from_session_type_2_1 h) cs known in
    let same = accepted_fatal k h config.tag config.content accepted in
    let (to, back) = fatal_iff k config in ((λ e. to (same ∙ e)), (λ e. sym same ∙ back e))
