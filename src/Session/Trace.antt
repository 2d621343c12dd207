-- ===== src/Session/Trace.antt =====
-- What holds of a session after any sequence of calls. Each call takes the session's lock, so calls
-- from several threads are such a sequence.
use device_phh_treble_doze.Base.{
  ℕ, ◌≡◌, ◌≢◌, refl, Bool, true, false, List, [], ◌∷◌, Option, none, some, arith,
}
use device_phh_treble_doze.Session.Types.{
  SessionType, unknown, AudioConfiguration, LatencyMode, DataMq, PortStatusCallbacks, Session,
}
use device_phh_treble_doze.Session.State.{
  new_session, accepts_config, default_tag, update_audio_config, update_data_path,
  on_session_started, on_session_ended, get_audio_config, report_audio_config_changed,
  report_low_latency_mode_allowed_changed,
}
use device_phh_treble_doze.Session.Cookies.{
  is_registered, erase, register_status_cback, unregister_status_cback,
}
use device_phh_treble_doze.Session.Observers.{registration}

pub data Call : Type 0 where
  starts : Option ℕ → Option DataMq → AudioConfiguration → List LatencyMode → Call
  ends : Call
  config_changes : AudioConfiguration → Call
  low_latency_changes : Bool → Call
  registers : PortStatusCallbacks → Call
  unregisters : ℕ → Call

module _ (code : SessionType → ℕ) where
  pub step : Session → Call → Session
  step s (starts iface mq config modes) = (on_session_started s iface mq config modes).0
  step s ends = (on_session_ended s).0
  step s (config_changes config) = (report_audio_config_changed s config).0
  step s (low_latency_changes allowed) = (report_low_latency_mode_allowed_changed s allowed).0
  step s (registers callbacks) = (register_status_cback code s callbacks).0
  step s (unregisters cookie) = unregister_status_cback s cookie

  pub run : Session → List Call → Session
  run s [] = s
  run s (c ∷ cs) = run (step s c) cs

-- A stored configuration is of a kind that fits the type.
abbrev Fits : SessionType → Option AudioConfiguration → Type 0
Fits t none = Unit
Fits t (some config) = accepts_config t config.tag ≡ true

-- No two observers share a cookie.
abbrev pub Distinct : List (ℕ × PortStatusCallbacks) → Type 0
Distinct [] = Unit
Distinct ((c, cb) ∷ obs) = (is_registered obs c ≡ false) × Distinct obs

record Inv (t : SessionType) (s : Session) : Type 0 where
  same_type : s.session_type ≡ t
  fits : Fits t s.audio_config
  distinct : Distinct s.observers

pub is_registered-erase :
    (obs : List (ℕ × PortStatusCallbacks)) (c d : ℕ)
    → is_registered obs c ≡ false
    → is_registered (erase obs d) c ≡ false
unfolding is_registered erase
is_registered-erase [] c d h = refl
is_registered-erase ((x, cb) ∷ obs) c d h = ground (arith, is_registered-erase obs c d)

pub erase-Distinct :
    (obs : List (ℕ × PortStatusCallbacks)) (d : ℕ) → Distinct obs → Distinct (erase obs d)
unfolding erase
erase-Distinct [] d h = tt
erase-Distinct ((x, cb) ∷ obs) d h =
    ground (arith, is_registered-erase obs x d, erase-Distinct obs d)

started-Inv :
    (t : SessionType) (s : Session) (iface : Option ℕ) (mq : Option DataMq)
    (config : AudioConfiguration) (modes : List LatencyMode)
    → Inv t s
    → Inv t (on_session_started s iface mq config modes).0
unfolding on_session_started update_audio_config update_data_path
started-Inv t s none mq config modes h = h
started-Inv t s (some iface) mq config modes h = ground arith

ended-Inv : (t : SessionType) (s : Session) → Inv t s → Inv t (on_session_ended s).0
unfolding on_session_ended update_data_path
ended-Inv t s h = ground arith

config_changed-Inv :
    (t : SessionType) (s : Session) (config : AudioConfiguration)
    → Inv t s
    → Inv t (report_audio_config_changed s config).0
unfolding report_audio_config_changed accepts_config
config_changed-Inv t s config h = ground arith

low_latency_changed-Inv :
    (t : SessionType) (s : Session) (allowed : Bool)
    → Inv t s
    → Inv t (report_low_latency_mode_allowed_changed s allowed).0
unfolding report_low_latency_mode_allowed_changed
low_latency_changed-Inv t s allowed h = ground arith

registered-Inv :
    (code : SessionType → ℕ) (t : SessionType) (s : Session) (callbacks : PortStatusCallbacks)
    → Inv t s
    → Inv t (register_status_cback code s callbacks).0
unfolding register_status_cback
registered-Inv code t s callbacks h = ground (arith, registration code s callbacks)

step-Inv :
    (code : SessionType → ℕ) (t : SessionType) (s : Session) (c : Call)
    → Inv t s
    → Inv t (step code s c)
unfolding step unregister_status_cback
step-Inv code t s (starts iface mq config modes) h = started-Inv t s iface mq config modes h
step-Inv code t s ends h = ended-Inv t s h
step-Inv code t s (config_changes config) h = config_changed-Inv t s config h
step-Inv code t s (low_latency_changes allowed) h = low_latency_changed-Inv t s allowed h
step-Inv code t s (registers callbacks) h = registered-Inv code t s callbacks h
step-Inv code t s (unregisters cookie) h = record {
  same_type = h.same_type;
  fits = h.fits;
  distinct = erase-Distinct s.observers cookie h.distinct;
}

run-Inv :
    (code : SessionType → ℕ) (t : SessionType) (s : Session) (cs : List Call)
    → Inv t s
    → Inv t (run code s cs)
unfolding run
run-Inv code t s [] h = h
run-Inv code t s (c ∷ cs) h = run-Inv code t (step code s c) cs (step-Inv code t s c h)

new-Inv : (t : SessionType) → Inv t (new_session t)
unfolding new_session
new-Inv t = record { same_type = refl; fits = tt; distinct = tt }

default_tag-accepted : (t : SessionType) → t ≢ unknown → accepts_config t (default_tag t) ≡ true
unfolding default_tag accepts_config
default_tag-accepted unknown known = absurd (known refl)
default_tag-accepted _ known = refl

get_audio_config-fits :
    (t : SessionType) (s : Session)
    → t ≢ unknown
    → Inv t s
    → accepts_config t (get_audio_config s).tag ≡ true
unfolding get_audio_config
get_audio_config-fits t s known h = ground (arith, default_tag-accepted t known)

-- After any sequence of calls on a new session of a type other than unknown, `GetAudioConfig`
-- returns a configuration of a kind that the session's type accepts, whether the session is ready
-- or not, and no two observers share a cookie.
pub session_run :
    (code : SessionType → ℕ) (t : SessionType) (cs : List Call)
    → t ≢ unknown
    → (accepts_config t (get_audio_config (run code (new_session t) cs)).tag ≡ true)
      × Distinct (run code (new_session t) cs).observers
session_run code t cs known =
    let h = run-Inv code t (new_session t) cs (new-Inv t) in
    (get_audio_config-fits t (run code (new_session t) cs) known h, h.distinct)
