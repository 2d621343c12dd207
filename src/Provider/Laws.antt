-- ===== src/Provider/Laws.antt =====
-- Providers and the session that they act on.
use device_phh_treble_doze.Base.{ℕ, ◌≡◌, refl, true, false, List, none, some, arith, subst, sym}
use device_phh_treble_doze.Session.Types.{AudioConfiguration, LatencyMode, Session}
use device_phh_treble_doze.Session.State.{
  mq_valid, accepts_config, is_session_ready, get_audio_config, on_session_started,
  update_audio_config, update_data_path,
}
use device_phh_treble_doze.Session.Lifecycle.{session_start, session_end, tells_all}
use device_phh_treble_doze.Provider.{
  status_ok, ProviderClass, type_of, has_queue, Provider, Contents, accepts, a2dp_offload_accepts,
  software_accepts, on_session_ready, base_start_session, start_session, end_session,
  a2dp_offload_encoding, a2dp_offload_decoding, a2dp_software_encoder, a2dp_software_decoder,
  hearing_aid, hfp_offload, le_audio_offload_output, le_audio_offload_input,
  le_audio_offload_broadcast,
}

-- What a class accepts, the session of its type accepts.
accepts-fits :
    (k : Contents) (c : ProviderClass) (config : AudioConfiguration)
    → accepts k c config ≡ true
    → accepts_config (type_of c) config.tag ≡ true
unfolding accepts a2dp_offload_accepts software_accepts accepts_config
accepts-fits k a2dp_offload_encoding config h = ground arith
accepts-fits k a2dp_offload_decoding config h = ground arith
accepts-fits k a2dp_software_encoder config h = ground arith
accepts-fits k a2dp_software_decoder config h = ground arith
accepts-fits k hearing_aid config h = ground arith
accepts-fits k hfp_offload config h = ground arith
accepts-fits k le_audio_offload_output config h = ground arith
accepts-fits k le_audio_offload_input config h = ground arith
accepts-fits k le_audio_offload_broadcast config h = ground arith

-- A provider whose class is given a queue has a valid one, as `isValid` asks when it is opened.
abbrev pub HasQueue : Provider → Type 0
HasQueue p = has_queue p.class ≡ true → mq_valid p.data_mq ≡ true

-- The queue that the class hands to the session is valid, or it hands none and needs none.
on_session_ready_lem :
    (p : Provider) (s : Session) (host : ℕ) (config : AudioConfiguration)
    → s.session_type ≡ type_of p.class
    → accepts_config s.session_type config.tag ≡ true
    → HasQueue p
    → p.stack_iface ≡ some host
    → let (s', events) = on_session_ready p s config in
      (s'.stack_iface ≡ some host)
      × (s'.audio_config ≡ some config)
      × (is_session_ready s' ≡ true)
      × (s'.observers ≡ s.observers)
      × (events ≡ tells_all s.observers)
unfolding on_session_ready on_session_started update_audio_config update_data_path
on_session_ready_lem p s host config same fits queue port = ground (
  arith,
  session_start s host none config p.latency_modes,
  session_start s host p.data_mq config p.latency_modes,
)

module _ (k : Contents) (p : Provider) (s : Session) (host : ℕ) (config : AudioConfiguration)
    (modes : List LatencyMode) (same : s.session_type ≡ type_of p.class) (queue : HasQueue p)
    (accepted : accepts k p.class config ≡ true) where
  session_fits : accepts_config s.session_type config.tag ≡ true
  session_fits =
      subst (λ t. accepts_config t config.tag ≡ true) (sym same)
        (accepts-fits k p.class config accepted)

  -- When a provider's class accepts the configuration and its queue, if it has one, is valid, a start
  -- with a port answers ok, the session of its type is ready and `GetAudioConfig` returns the
  -- configuration, and each observer is told once.
  pub provider_start :
      let o = start_session k p s (some host) config modes in
      (o.answer ≡ status_ok)
      × (o.provider.stack_iface ≡ some host)
      × (o.session.stack_iface ≡ some host)
      × (is_session_ready o.session ≡ true)
      × (get_audio_config o.session ≡ config)
      × (o.events ≡ tells_all s.observers)
  unfolding start_session base_start_session get_audio_config
  provider_start =
      let started =
        on_session_ready_lem
          (record p { latency_modes = modes; audio_config = some config; stack_iface = some host })
          s host config same session_fits queue refl in
      ground (arith, started)

  -- When a provider's class accepts the configuration and its queue, if it has one, is valid, a start
  -- with a port and the end after it leave the session not ready and the provider without port and
  -- configuration; the end answers ok and tells each observer once.
  pub provider_start-end :
      let o = start_session k p s (some host) config modes in
      let e = end_session o.provider o.session in
      (e.answer ≡ status_ok)
      × (e.provider.stack_iface ≡ none)
      × (e.provider.audio_config ≡ none)
      × (is_session_ready e.session ≡ false)
      × (e.session.stack_iface ≡ none)
      × (e.events ≡ tells_all s.observers)
  unfolding start_session base_start_session end_session
  provider_start-end =
      let q : Provider = record p {
        latency_modes = modes;
        audio_config = some config;
        stack_iface = some host;
      } in
      let started = on_session_ready_lem q s host config same session_fits queue refl in
      ground (arith, started, session_end (on_session_ready q s config).0)
