-- ===== src/Provider/Trace.antt =====
-- Sequences of calls on a provider, the death of the stack's process among them.
use device_phh_treble_doze.Base.{
  ℕ, ◌≡◌, refl, Bool, true, false, not, ◌&&◌, List, [], ◌∷◌, Option, none, some, arith,
  if◌then◌else◌,
}
use device_phh_treble_doze.Session.Types.{
  SessionType, AudioConfiguration, LatencyMode, DataMq, BluetoothAudioStatus, Session,
}
use device_phh_treble_doze.Session.State.{
  is_set, is_session_ready, new_session, report_audio_config_changed,
  report_low_latency_mode_allowed_changed,
}
use device_phh_treble_doze.Session.Lifecycle.{session_end}
use device_phh_treble_doze.Provider.{
  ProviderClass, Provider, Outcome, Contents, base_start_session, start_session, end_session,
  binder_died, stream_started, stream_suspended, same_tag, update_audio_configuration,
  set_low_latency_mode_allowed,
}

pub data Call : Type 0 where
  starts : Option ℕ → AudioConfiguration → List LatencyMode → Call
  ends dies : Call
  updates : AudioConfiguration → Call
  allows : Bool → Call
  reports : Bool → BluetoothAudioStatus → Call

abbrev pub call : Contents → Call → Provider → Session → Outcome
call k (starts host config modes) p s = start_session k p s host config modes
call k ends p s = end_session p s
call k dies p s = binder_died p s
call k (updates config) p s = update_audio_configuration p s config
call k (allows allowed) p s = set_low_latency_mode_allowed p s allowed
call k (reports started st) p s = if started then stream_started p s st else stream_suspended p s st

pub run : Contents → List Call → Provider → Session → Provider × Session
run k [] p s = (p, s)
run k (c ∷ cs) p s = let o = call k c p s in run k cs o.provider o.session

abbrev pub new_provider : ProviderClass → Option DataMq → Provider
new_provider class mq = record {
  class = class;
  stack_iface = none;
  audio_config = none;
  latency_modes = [];
  data_mq = mq;
}

-- A ready session is one that the provider knows of.
abbrev Knows : Provider → Session → Type 0
Knows p s = is_session_ready s ≡ true → is_set p.stack_iface ≡ true

start-Knows :
    (k : Contents) (p : Provider) (s : Session) (host : Option ℕ) (config : AudioConfiguration)
    (modes : List LatencyMode)
    → Knows p s
    → let o = start_session k p s host config modes in Knows o.provider o.session
unfolding start_session base_start_session
start-Knows k p s none config modes h = ground arith
start-Knows k p s (some host) config modes h = ground arith

update-Knows :
    (p : Provider) (s : Session) (config : AudioConfiguration)
    → Knows p s
    → let o = update_audio_configuration p s config in Knows o.provider o.session
unfolding update_audio_configuration report_audio_config_changed is_session_ready same_tag
update-Knows p s config h = ground arith

allow-Knows :
    (p : Provider) (s : Session) (allowed : Bool)
    → Knows p s
    → let o = set_low_latency_mode_allowed p s allowed in Knows o.provider o.session
unfolding set_low_latency_mode_allowed report_low_latency_mode_allowed_changed is_session_ready
allow-Knows p s allowed h = ground arith

end-Knows :
    (p : Provider) (s : Session) → Knows p s → is_session_ready (end_session p s).session ≡ false
unfolding end_session
end-Knows p s h = ground (arith, session_end s)

call-Knows :
    (k : Contents) (c : Call) (p : Provider) (s : Session)
    → Knows p s
    → let o = call k c p s in Knows o.provider o.session
unfolding binder_died stream_started stream_suspended
call-Knows k (starts host config modes) p s h = start-Knows k p s host config modes h
call-Knows k ends p s h = ground (arith, end-Knows p s h)
call-Knows k dies p s h = ground (arith, session_end s)
call-Knows k (updates config) p s h = update-Knows p s config h
call-Knows k (allows allowed) p s h = allow-Knows p s allowed h
call-Knows k (reports started st) p s h = ground arith

run-Knows :
    (k : Contents) (cs : List Call) (p : Provider) (s : Session)
    → Knows p s
    → let (p', s') = run k cs p s in Knows p' s'
unfolding run
run-Knows k [] p s h = h
run-Knows k (c ∷ cs) p s h =
    let o = call k c p s in run-Knows k cs o.provider o.session (call-Knows k c p s h)

new-Knows :
    (class : ProviderClass) (mq : Option DataMq) (t : SessionType)
    → Knows (new_provider class mq) (new_session t)
unfolding is_session_ready new_session
new-Knows class mq t h = ground arith

-- After any sequence of starts, ends, deaths of the stack, updates and reports on a new provider and
-- a new session, a ready session is one for which the provider still holds its port; so a further
-- `endSession` leaves the session not ready and the provider without port and configuration.
pub provider_run :
    (k : Contents) (class : ProviderClass) (mq : Option DataMq) (t : SessionType) (cs : List Call)
    → let (p, s) = run k cs (new_provider class mq) (new_session t) in
      let e = end_session p s in
      ((is_session_ready s && not (is_set p.stack_iface)) ≡ false)
      × (is_session_ready e.session ≡ false)
      × (e.provider.stack_iface ≡ none)
      × (e.provider.audio_config ≡ none)
provider_run k class mq t cs =
    let (p, s) = run k cs (new_provider class mq) (new_session t) in
    let known : Knows p s =
      run-Knows k cs (new_provider class mq) (new_session t) (new-Knows class mq t) in
    (ground arith, end-Knows p s known, unfold end_session in refl, unfold end_session in refl)
