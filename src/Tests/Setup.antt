-- ===== src/Tests/Setup.antt =====
-- The platform, the session and the stream of the examples about the legacy audio HAL.
use Prim.Native.String.{String}
use device_phh_treble_doze.Base.{
  ℕ, ◌*◌, true, false, ◌&&◌, List, [], ◌∷◌, some, pos, take, if◌then◌else◌,
}
use device_phh_treble_doze.A2dp.Codec.{stereo}
use device_phh_treble_doze.Codecs.Software.{PcmConfiguration}
use device_phh_treble_doze.Session.Types.{
  SessionType, unknown, a2dp_software_encoding, pcm_config, Session, control_result, success,
  failure, session_changed,
}
use device_phh_treble_doze.Session.Pcm.{WriteRound}
use device_phh_treble_doze.Hw.Types.{
  disabled, standby, ChannelMask, out_stereo, AudioFormat, pcm_16_bit, Port, Env,
}
use device_phh_treble_doze.Hw.Out.{StreamOut, WriteEnv}
use device_phh_treble_doze.Hw.Params.{same, ParamNames}
use device_phh_treble_doze.Hw.Runs.{Call, resumes, sets_parameters, writes, hears, Platform}

abbrev pub code : SessionType → ℕ
code unknown = 0
code a2dp_software_encoding = 1
code _ = 2

abbrev pub names : ParamNames
names = record {
  sup_sampling_rates = "sup_sampling_rates";
  sup_channels = "sup_channels";
  sup_formats = "sup_formats";
  closing = "closing";
  exiting = "exiting";
}

-- Splits one text.
abbrev pub split : String → String → List String
split text separator =
    if same text "closing=true" && same separator "=" then "closing" ∷ "true" ∷ [] else text ∷ []

abbrev pub pcm_of : ℕ → PcmConfiguration
pcm_of n = record {
  sample_rate_hz = pos 44100;
  channel_mode = stereo;
  bits_per_sample = pos 16;
  data_interval_us = pos 20000;
}

abbrev pub frame_size : ChannelMask → AudioFormat → ℕ
frame_size mask format = 4

abbrev pub downmix : List ℕ → ℕ → List ℕ
downmix buffer frames = take (frames * 2) buffer

abbrev pub platform : Platform
platform = record {
  code = code;
  names = names;
  split = split;
  pcm_of = pcm_of;
  frame_size = frame_size;
  downmix = downmix;
}

abbrev pub session : Session
session = record {
  session_type = a2dp_software_encoding;
  stack_iface = some 5;
  data_mq = some (record { descriptor = 9; valid = true });
  audio_config = some (record { tag = pcm_config; content = 3 });
  latency_modes = [];
  low_latency_allowed = true;
  observers = [];
}

abbrev pub succeeds : Env
succeeds = record {
  session = session;
  answer = true;
  during = [];
  wakes = (control_result 256 true success ∷ []) ∷ (session_changed 512 ∷ []) ∷ [];
}

abbrev pub silent : Env
silent = record { session = session; answer = false; during = []; wakes = [] }

abbrev pub port : Port
port = record {
  cookie = 256;
  state = standby;
  session_type = a2dp_software_encoding;
  is_stereo_to_mono = false;
}

abbrev pub out : StreamOut
out = record {
  port = port;
  last_write_time_us = 0;
  sample_rate = 44100;
  channel_mask = out_stereo;
  format = pcm_16_bit;
  preferred_data_interval_us = 20000;
  frames_count = 882;
  frames_rendered = 50000;
  frames_presented = 90000;
}

abbrev pub closed : StreamOut
closed = record out { port = record port { state = disabled } }

abbrev pub flowing : ℕ → WriteRound
flowing n = record { ready = true; available = 2; transfers = true }

abbrev pub write_env : WriteEnv
write_env = record { port_env = succeeds; rounds = flowing; now = 1000 }

abbrev pub calls : List Call
calls =
    resumes succeeds
    ∷ writes write_env (1 ∷ 2 ∷ 3 ∷ 4 ∷ []) 4
    ∷ hears (control_result 512 true failure ∷ [])
    ∷ sets_parameters silent "closing=true"
    ∷ resumes succeeds
    ∷ []
