-- ===== src/Provider/Opened.antt =====
-- What `openProvider` of bluetooth/audio/hal/BluetoothAudioProviderFactory.cpp opens can be started.

use device_phh_treble_doze.Base.{ℕ, ◌≡◌, arith, true, List, Option, some}
use device_phh_treble_doze.Session.Types.{
  SessionType, unknown, a2dp_software_encoding, a2dp_hardware_offload_encoding,
  hearing_aid_software_encoding, le_audio_software_encoding, le_audio_software_decoding,
  le_audio_hardware_offload_encoding, le_audio_hardware_offload_decoding,
  le_audio_broadcast_software_encoding, le_audio_broadcast_hardware_offload_encoding,
  a2dp_software_decoding, a2dp_hardware_offload_decoding, hfp_software_encoding,
  hfp_software_decoding, hfp_hardware_offload, AudioConfiguration, LatencyMode, DataMq, Session,
}
use device_phh_treble_doze.Session.State.{mq_valid, is_session_ready, get_audio_config}
use device_phh_treble_doze.Session.Lifecycle.{tells_all}
use device_phh_treble_doze.Provider.{
  status_ok, ProviderClass, type_of, has_queue, Contents, accepts, start_session,
}
use device_phh_treble_doze.Provider.Laws.{provider_start}
use device_phh_treble_doze.Provider.Trace.{new_provider}
use device_phh_treble_doze.Provider.Factory.{
  known, make_provider, queue_of, constructed_type, is_valid, open_provider,
}

-- What is opened has the type asked for, and a valid queue if its class has one.
opened_lem :
    (mq : Option DataMq) (t : SessionType) (class : ProviderClass)
    → open_provider mq t ≡ some (known class)
    → (t ≡ type_of class) × (has_queue class ≡ true → mq_valid (queue_of class mq) ≡ true)
unfolding open_provider make_provider is_valid constructed_type queue_of
opened_lem mq unknown class h = ground arith
opened_lem mq a2dp_software_encoding class h = ground arith
opened_lem mq a2dp_hardware_offload_encoding class h = ground arith
opened_lem mq hearing_aid_software_encoding class h = ground arith
opened_lem mq le_audio_software_encoding class h = ground arith
opened_lem mq le_audio_software_decoding class h = ground arith
opened_lem mq le_audio_hardware_offload_encoding class h = ground arith
opened_lem mq le_audio_hardware_offload_decoding class h = ground arith
opened_lem mq le_audio_broadcast_software_encoding class h = ground arith
opened_lem mq le_audio_broadcast_hardware_offload_encoding class h = ground arith
opened_lem mq a2dp_software_decoding class h = ground arith
opened_lem mq a2dp_hardware_offload_decoding class h = ground arith
opened_lem mq hfp_software_encoding class h = ground arith
opened_lem mq hfp_software_decoding class h = ground arith
opened_lem mq hfp_hardware_offload class h = ground arith

-- When `openProvider` gives a provider of one of the classes of the module Provider, and the class
-- accepts a configuration, the first start with a port on a session of the type asked for answers ok;
-- the session is ready, `GetAudioConfig` returns the configuration, and each observer is told once.
pub opened_start :
    (k : Contents) (mq : Option DataMq) (t : SessionType) (class : ProviderClass) (s : Session)
    (host : ℕ) (config : AudioConfiguration) (modes : List LatencyMode)
    → open_provider mq t ≡ some (known class)
    → s.session_type ≡ t
    → accepts k class config ≡ true
    → let o = start_session k (new_provider class (queue_of class mq)) s (some host) config modes in
      (o.answer ≡ status_ok)
      × (o.provider.stack_iface ≡ some host)
      × (o.session.stack_iface ≡ some host)
      × (is_session_ready o.session ≡ true)
      × (get_audio_config o.session ≡ config)
      × (o.events ≡ tells_all s.observers)
opened_start k mq t class s host config modes opened same accepted =
    let (typed, queue) = opened_lem mq t class opened in
    provider_start k (new_provider class (queue_of class mq)) s host config modes (cc) queue
      accepted
