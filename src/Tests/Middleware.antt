-- ===== src/Tests/Middleware.antt =====
-- Examples about the middleware.
use device_phh_treble_doze.Base.{ℕ, pos, ◌≡◌, ◌↔◌, refl, arith, true, List, [], ◌∷◌, none}
use device_phh_treble_doze.A2dp.Codec.{stereo}
use device_phh_treble_doze.Session.Types.{
  SessionType, a2dp_software_encoding, is_offload_le_audio_unicast,
}
use device_phh_treble_doze.Session.State.{new_session}
use device_phh_treble_doze.Session.Cookies.{is_registered}
use device_phh_treble_doze.Session.Trace.{ends, run}
use device_phh_treble_doze.Codecs.{contained_in_vector}
use device_phh_treble_doze.Codecs.Software.{PcmConfiguration, is_software_pcm_configuration_valid}
use device_phh_treble_doze.Middleware.Convert.{
  to_hidl_pcm_config_2_1, from_session_type_2_1, hidl_le_audio_hardware_offload_encoding,
}
use device_phh_treble_doze.Middleware.Configs.{Meanings, vendor_config, get_audio_config_2_1}
use device_phh_treble_doze.Middleware.Kept.{of_hidl, pcm_kept}
use device_phh_treble_doze.Middleware.Answered.{get_audio_config_iff}
use device_phh_treble_doze.Middleware.Callbacks.{Bridge}
use device_phh_treble_doze.Middleware.Bridged as Bridged
use device_phh_treble_doze.Middleware.Bridged.{
  IsBridged, BridgeEvent, registers, unregisters, bridge_run, bridge_run_lem,
}

-- One number for every session type.
abbrev code_of : SessionType → ℕ
code_of t = 1

abbrev pcm : PcmConfiguration
pcm = record {
  sample_rate_hz = pos 48000;
  channel_mode = stereo;
  bits_per_sample = pos 24;
  data_interval_us = pos 10000;
}

pcm_kept_example : of_hidl (to_hidl_pcm_config_2_1 pcm) ≡ pcm
unfolding is_software_pcm_configuration_valid contained_in_vector
pcm_kept_example = pcm_kept pcm 10000 refl refl (omega arith)

abbrev meanings : Meanings
meanings = record {
  pcm_of = λ n. pcm;
  le_of = λ n. record { codec = vendor_config 1; allocations = [] };
  broadcast_of = λ n. [];
}

get_audio_config_iff_example :
    (is_offload_le_audio_unicast (from_session_type_2_1 hidl_le_audio_hardware_offload_encoding)
      ≡ true)
    ↔ (get_audio_config_2_1 meanings (
          run code_of
            (new_session (from_session_type_2_1 hidl_le_audio_hardware_offload_encoding))
            (ends ∷ []))
        ≡ none)
unfolding from_session_type_2_1
get_audio_config_iff_example =
    get_audio_config_iff meanings code_of hidl_le_audio_hardware_offload_encoding (ends ∷ [])
      (ground arith)

abbrev new_bridge : Bridge
new_bridge = record { session = new_session a2dp_software_encoding; table = [] }

new_bridge-IsBridged : IsBridged new_bridge
unfolding new_session is_registered
new_bridge-IsBridged = (tt, λ d r. absurd (ground arith))

abbrev bridge_events : List BridgeEvent
bridge_events = registers 7 ∷ registers 8 ∷ unregisters 256 ∷ Bridged.ends ∷ []

bridge_run_lem_example : IsBridged (bridge_run code_of bridge_events new_bridge)
bridge_run_lem_example = bridge_run_lem code_of bridge_events new_bridge new_bridge-IsBridged
