-- ===== src/Tests/Providers.antt =====
-- Examples about the providers.
use device_phh_treble_doze.Base.{
  ◌≡◌, refl, true, false, not, ◌&&◌, List, [], ◌∷◌, none, some, arith,
}
use device_phh_treble_doze.A2dp.Codec.{sbc}
use device_phh_treble_doze.Session.Types.{
  a2dp_hardware_offload_encoding, a2dp_config, AudioConfiguration, free, PortStatusCallbacks,
  Session,
}
use device_phh_treble_doze.Session.State.{is_set, new_session, is_session_ready, get_audio_config}
use device_phh_treble_doze.Session.Lifecycle.{tells_all}
use device_phh_treble_doze.Provider.{
  status_ok, a2dp_offload_encoding, Provider, Contents, start_session, end_session, accepts,
  a2dp_offload_accepts,
}
use device_phh_treble_doze.Provider.Laws.{provider_start-end}
use device_phh_treble_doze.Provider.Trace.{
  Call, starts, ends, dies, run, new_provider, provider_run,
}
use device_phh_treble_doze.Provider.Factory.{
  make_provider, queue_of, constructed_type, is_valid, open_provider,
}
use device_phh_treble_doze.Provider.Opened.{opened_start}
use device_phh_treble_doze.Codecs.{contained_in_vector}
use device_phh_treble_doze.Codecs.Tables as Tables
use device_phh_treble_doze.Codecs.Software as Software
use device_phh_treble_doze.Tests.Tables.{sbc_44100, wide_band}

abbrev contents : Contents
contents = record {
  codec_of = λ n. sbc;
  configuration_of = λ n. [];
  is_software_pcm_configuration_valid = λ n. Software.is_software_pcm_configuration_valid wide_band;
  is_offload_codec_configuration_valid =
      λ t n. Tables.is_offload_codec_configuration_valid t sbc_44100;
}

abbrev provider : Provider
provider = record {
  class = a2dp_offload_encoding;
  stack_iface = none;
  audio_config = none;
  latency_modes = [];
  data_mq = none;
}

abbrev callbacks : PortStatusCallbacks
callbacks = record {
  has_audio_configuration_changed_cb = true;
  has_low_latency_mode_allowed_cb = true;
}

abbrev session : Session
session = record {
  session_type = a2dp_hardware_offload_encoding;
  stack_iface = none;
  data_mq = none;
  audio_config = none;
  latency_modes = [];
  low_latency_allowed = true;
  observers = (512, callbacks) ∷ [];
}

abbrev config : AudioConfiguration
config = record { tag = a2dp_config; content = 8 }

provider_start-end_example :
    let o = start_session contents provider session (some 5) config (free ∷ []) in
    let e = end_session o.provider o.session in
    (e.answer ≡ status_ok)
    × (e.provider.stack_iface ≡ none)
    × (e.provider.audio_config ≡ none)
    × (is_session_ready e.session ≡ false)
    × (e.session.stack_iface ≡ none)
    × (e.events ≡ tells_all session.observers)
provider_start-end_example =
    provider_start-end contents provider session 5 config (free ∷ []) refl
      (λ e. absurd (ground arith))
      (unfold accepts a2dp_offload_accepts Tables.is_offload_codec_configuration_valid
          Tables.is_valid_for Tables.is_offload_sbc_configuration_valid contained_in_vector in
        refl)

opened_start_example :
    let o =
      start_session contents
        (new_provider a2dp_offload_encoding (queue_of a2dp_offload_encoding none))
        session
        (some 5)
        config
        (free ∷ []) in
    (o.answer ≡ status_ok)
    × (o.provider.stack_iface ≡ some 5)
    × (o.session.stack_iface ≡ some 5)
    × (is_session_ready o.session ≡ true)
    × (get_audio_config o.session ≡ config)
    × (o.events ≡ tells_all session.observers)
opened_start_example =
    opened_start contents none a2dp_hardware_offload_encoding a2dp_offload_encoding session 5 config
      (free ∷ []) (unfold open_provider make_provider is_valid constructed_type in refl) refl
      (unfold accepts a2dp_offload_accepts Tables.is_offload_codec_configuration_valid
          Tables.is_valid_for Tables.is_offload_sbc_configuration_valid contained_in_vector in
        refl)

abbrev calls : List Call
calls = starts (some 5) config [] ∷ dies ∷ ends ∷ starts (some 6) config [] ∷ []

provider_run_example :
    let (p, s) =
      run contents calls
        (new_provider a2dp_offload_encoding none)
        (new_session a2dp_hardware_offload_encoding) in
    let e = end_session p s in
    ((is_session_ready s && not (is_set p.stack_iface)) ≡ false)
    × (is_session_ready e.session ≡ false)
    × (e.provider.stack_iface ≡ none)
    × (e.provider.audio_config ≡ none)
provider_run_example =
    provider_run contents a2dp_offload_encoding none a2dp_hardware_offload_encoding calls
