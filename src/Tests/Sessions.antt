-- ===== src/Tests/Sessions.antt =====
-- Examples about the sessions.
use device_phh_treble_doze.Base.{
  ℕ, ◌%◌, ◌≡◌, refl, true, false, List, [], ◌∷◌, none, some, arith, ltb, if◌then◌else◌,
}
use device_phh_treble_doze.Session.Types.{
  a2dp_config, a2dp_hardware_offload_encoding, SessionType, unknown, a2dp_software_encoding,
  pcm_config, AudioConfiguration, LatencyMode, low_latency, free, DataMq, PortStatusCallbacks,
  Session,
}
use device_phh_treble_doze.Session.State.{new_session, accepts_config, get_audio_config}
use device_phh_treble_doze.Session.Trace.{Call, starts, ends, registers, run, Distinct, session_run}
use device_phh_treble_doze.Session.Pcm.{WriteRound, ReadRound, Progress, out_write_pcm_data}
use device_phh_treble_doze.Session.Pcm.Total.{IsWritten, IsDone, out_write_total, out_write_all}

abbrev callbacks : PortStatusCallbacks
callbacks = record {
  has_audio_configuration_changed_cb = true;
  has_low_latency_mode_allowed_cb = false;
}

abbrev software : Session
software = record {
  session_type = a2dp_software_encoding;
  stack_iface = none;
  data_mq = none;
  audio_config = none;
  latency_modes = free ∷ low_latency ∷ [];
  low_latency_allowed = true;
  observers = (256, callbacks) ∷ [];
}

abbrev pcm : AudioConfiguration
pcm = record { tag = pcm_config; content = 3 }

abbrev queue : DataMq
queue = record { descriptor = 9; valid = true }

abbrev broken : DataMq
broken = record { descriptor = 9; valid = false }

abbrev modes : List LatencyMode
modes = free ∷ []

abbrev started : Session
started = record {
  session_type = a2dp_software_encoding;
  stack_iface = some 5;
  data_mq = some queue;
  audio_config = some pcm;
  latency_modes = free ∷ low_latency ∷ [];
  low_latency_allowed = true;
  observers = (256, callbacks) ∷ [];
}

-- Values for the session types.
abbrev code : SessionType → ℕ
code unknown = 0
code a2dp_software_encoding = 1
code _ = 2

abbrev calls : List Call
calls =
    registers callbacks
    ∷ registers callbacks
    ∷ starts (some 5) (some queue) pcm modes
    ∷ ends
    ∷ starts (some 6) (some queue) pcm modes
    ∷ []

session_run_example :
    (accepts_config a2dp_software_encoding
        (get_audio_config (run code (new_session a2dp_software_encoding) calls)).tag
      ≡ true)
    × Distinct (run code (new_session a2dp_software_encoding) calls).observers
session_run_example = session_run code a2dp_software_encoding calls (ground arith)

-- A queue with room for two bytes, which a round in three finds full.
abbrev writes : ℕ → WriteRound
writes n = record { ready = true; available = if ltb 0 (n % 3) then 2 else 0; transfers = true }

abbrev buffer : List ℕ
buffer = 10 ∷ 20 ∷ 30 ∷ 40 ∷ 50 ∷ []

out_write_total_example :
    (p : Progress) × (out_write_pcm_data writes (some buffer) 5 ≡ some p) × IsWritten buffer 5 p
out_write_total_example = out_write_total writes buffer 5

abbrev flowing : ℕ → WriteRound
flowing n = record { ready = true; available = 2; transfers = true }

out_write_all_example :
    (p : Progress) × (out_write_pcm_data flowing (some buffer) 5 ≡ some p) × IsDone buffer 5 p
out_write_all_example = out_write_all flowing buffer 5 (λ n. (refl, omega arith, refl))

abbrev reads : ℕ → ReadRound
reads n = record { ready = ltb n 9; waiting = 7 ∷ 8 ∷ []; transfers = true }

abbrev offload : Session
offload = record {
  session_type = a2dp_hardware_offload_encoding;
  stack_iface = some 5;
  data_mq = none;
  audio_config = some (record { tag = a2dp_config; content = 8 });
  latency_modes = free ∷ [];
  low_latency_allowed = false;
  observers = (512, callbacks) ∷ [];
}
