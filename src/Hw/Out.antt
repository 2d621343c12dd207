-- ===== src/Hw/Out.antt =====
-- The output streams of bluetooth/audio/hw/stream_apis.cc over an AIDL port: their state, and the
-- calls that move it. A call holds the stream's lock; the callbacks of the session come in while it
-- waits, and those left over come after it.
use device_phh_treble_doze.Base.{
  ℕ, ◌+◌, ◌-◌, ◌*◌, ◌/◌, Bool, true, false, not, ◌||◌, List, ◌++◌, Option, none, some, ◌==◌,
  if◌then◌else◌,
}
use device_phh_treble_doze.Codecs.Software.{PcmConfiguration}
use device_phh_treble_doze.Session.Types.{SessionType, Session, Event}
use device_phh_treble_doze.Session.Pcm.{WriteRound, Progress, out_write_pcm_data}
use device_phh_treble_doze.Hw.Types.{
  disabled, standby, starting, started, suspending, state_eqb, ChannelMask, AudioFormat,
  AudioConfig, Port, Env, u64,
}
use device_phh_treble_doze.Hw.Port.{concat, in_use, start, suspend, stop, tear_down}
use device_phh_treble_doze.Hw.Config.{load_output_config}

-- `BluetoothStreamOut`. The times of writes are the microseconds of the monotonic clock.
pub record StreamOut : Type 0 where
  pub port : Port
  pub last_write_time_us : ℕ
  pub sample_rate : ℕ
  pub channel_mask : ChannelMask
  pub format : AudioFormat
  pub preferred_data_interval_us : ℕ
  pub frames_count : ℕ
  pub frames_rendered : ℕ
  pub frames_presented : ℕ

-- 0 and the negated error numbers.
pub data Retval : Type 0 where
  ok eio ebusy einval enosys : Retval

abbrev pub retval_of : Bool → Retval
retval_of true = ok
retval_of false = eio

abbrev pub is_ok : Retval → Bool
is_ok ok = true
is_ok _ = false

-- What a write meets besides: the rounds of the queue, and the time of its end.
pub record WriteEnv : Type 0 where
  pub port_env : Env
  pub rounds : ℕ → WriteRound
  pub now : ℕ

pub record Written : Type 0 where
  pub stream : StreamOut
  pub total : ℕ
  pub slept : ℕ
  pub rest : List Event

abbrev pub scaled : ℕ → Option Progress → Option ℕ
scaled k none = none
scaled k (some p) = some (p.total * k)

abbrev pub own_config : StreamOut → AudioConfig
own_config out = record {
  sample_rate = out.sample_rate;
  channel_mask = out.channel_mask;
  format = out.format;
}

-- The mixing of stereo frames into mono belongs to another library.
module _ (code : SessionType → ℕ) (downmix : List ℕ → ℕ → List ℕ) where
  unfoldable pub write_data : Port → (ℕ → WriteRound) → List ℕ → ℕ → Option ℕ
  write_data p rounds buffer bytes =
      if not (in_use code p)
      then some 0
      else if not p.is_stereo_to_mono
      then scaled 1 (out_write_pcm_data rounds (some buffer) bytes)
      else if bytes / 4 == 0
      then some 0
      else scaled 2 (out_write_pcm_data rounds (some (downmix buffer (bytes / 4))) (bytes / 4 * 2))

module _ (code : SessionType → ℕ) where
  -- `out_standby` and `out_pause` do the same.
  unfoldable pub out_standby : StreamOut → Env → StreamOut × Retval × List Event
  out_standby out env =
      if state_eqb out.port.state started
      then (let (p, done, rest) = suspend code out.port env in
          (record out { port = p; frames_rendered = 0 }, retval_of done, rest))
      else if state_eqb out.port.state starting || state_eqb out.port.state suspending
      then (out, ebusy, env.during ++ concat env.wakes)
      else (out, ok, env.during ++ concat env.wakes)

  unfoldable pub out_pause : StreamOut → Env → StreamOut × Retval × List Event
  out_pause out env =
      if state_eqb out.port.state started
      then (let (p, done, rest) = suspend code out.port env in
          (record out { port = p; frames_rendered = 0 }, retval_of done, rest))
      else if state_eqb out.port.state starting || state_eqb out.port.state suspending
      then (out, ebusy, env.during ++ concat env.wakes)
      else (out, ok, env.during ++ concat env.wakes)

  unfoldable pub out_resume : StreamOut → Env → StreamOut × Retval × List Event
  out_resume out env =
      if state_eqb out.port.state standby
      then (let (p, done, rest) = start code out.port env in
          (record out { port = p }, retval_of done, rest))
      else if state_eqb out.port.state starting || state_eqb out.port.state suspending
      then (out, ebusy, env.during ++ concat env.wakes)
      else if state_eqb out.port.state disabled
      then (out, einval, env.during ++ concat env.wakes)
      else (out, ok, env.during ++ concat env.wakes)

  -- What `closing`, `exiting` and the closing of a stream do to it.
  unfoldable pub close_port : StreamOut → StreamOut
  close_port out =
      if state_eqb out.port.state disabled
      then out
      else record out { frames_rendered = 0; frames_presented = 0; port = stop code out.port }

  -- The port with the session that it leaves.
  unfoldable pub adev_close_output_stream : StreamOut → Session → Port × Session
  adev_close_output_stream out s = tear_down code (close_port out).port s

  module _ (pcm_of : ℕ → PcmConfiguration) (frame_size : ChannelMask → AudioFormat → ℕ) where
    -- The answer of `LoadAudioConfig`, or the stream's own values when it fails.
    unfoldable pub current_config : StreamOut → Session → AudioConfig
    current_config out s =
        let (cfg, loaded) = load_output_config code pcm_of out.port s (own_config out) in
        if loaded then cfg else own_config out

    -- `audio_stream_out_frame_size`, which asks the stream for its channels and format.
    unfoldable pub out_frame_size : StreamOut → Session → ℕ
    out_frame_size out s =
        frame_size (current_config out s).channel_mask (current_config out s).format

    unfoldable pub out_get_buffer_size : StreamOut → Session → ℕ
    out_get_buffer_size out s = u64 (out.frames_count * out_frame_size out s)

    -- What follows `WriteData`. Only a positive difference of times is used.
    unfoldable pub after_write : StreamOut → WriteEnv → ℕ → ℕ → StreamOut × ℕ
    after_write out env bytes total =
        let size = out_frame_size out env.port_env.session in
        let play_time =
          u64 (bytes * 1000000) / size / (current_config out env.port_env.session).sample_rate in
        let sleep_time = play_time + out.last_write_time_us - env.now in
        if total == 0
        then (record out { last_write_time_us = env.now + sleep_time }, sleep_time)
        else (
          record out {
            frames_rendered = u64 (out.frames_rendered + bytes / size);
            frames_presented = u64 (out.frames_presented + bytes / size);
            last_write_time_us = env.now;
          },
          0,
        )

    abbrev pub written : StreamOut → WriteEnv → ℕ → List Event → Option ℕ → Option Written
    written out env bytes rest none = none
    written out env bytes rest (some total) =
        let (stream, slept) = after_write out env bytes total in
        some (record { stream = stream; total = total; slept = slept; rest = rest })

    -- `none` means that the model of the queue ran out of fuel.
    unfoldable pub out_write :
        (List ℕ → ℕ → List ℕ) → StreamOut → WriteEnv → List ℕ → ℕ → Option Written
    out_write downmix out env buffer bytes =
        if state_eqb out.port.state started
        then written out env bytes (env.port_env.during ++ concat env.port_env.wakes)
            (write_data code downmix out.port env.rounds buffer bytes)
        else (let (resumed, retval, rest) = out_resume out env.port_env in
            if is_ok retval
            then written resumed env bytes rest
                (write_data code downmix resumed.port env.rounds buffer bytes)
            else some (record {
              stream = resumed;
              total = if state_eqb resumed.port.state disabled then bytes else 0;
              slept = resumed.preferred_data_interval_us;
              rest = rest;
            }))
