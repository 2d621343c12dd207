-- ===== src/Hw/In.antt =====
-- The input streams of bluetooth/audio/hw/stream_apis.cc over an AIDL port. A call that waits for a
-- state sleeps millisecond by millisecond: `sleeps n` are the callbacks that come in sleep `n`.
use device_phh_treble_doze.Base.{
  ℕ, zero, suc, ◌+◌, ◌*◌, ◌/◌, ◌%◌, Bool, true, false, not, List, ◌++◌, Option, none, some, ◌==◌,
  if◌then◌else◌,
}
use device_phh_treble_doze.Codecs.Software.{PcmConfiguration}
use device_phh_treble_doze.Session.Types.{SessionType, Session, Event}
use device_phh_treble_doze.Session.Pcm.{ReadRound, in_read_pcm_data}
use device_phh_treble_doze.Hw.Types.{
  BluetoothStreamState, disabled, standby, starting, started, suspending, state_eqb, ChannelMask,
  AudioFormat, AudioConfig, Port, Env, u64,
}
use device_phh_treble_doze.Hw.Port.{in_use, concat, deliver_all, start, stop, suspend, tear_down}
use device_phh_treble_doze.Hw.Config.{load_input_config}
use device_phh_treble_doze.Hw.Out.{Retval, ok, ebusy, einval, retval_of, is_ok, scaled}

-- `BluetoothStreamIn`.
pub record StreamIn : Type 0 where
  pub port : Port
  pub last_read_time_us : ℕ
  pub sample_rate : ℕ
  pub channel_mask : ChannelMask
  pub format : AudioFormat
  pub preferred_data_interval_us : ℕ
  pub frames_count : ℕ
  pub frames_presented : ℕ

abbrev pub k_bluetooth_default_input_state_timeout_ms : ℕ
k_bluetooth_default_input_state_timeout_ms = 20

-- What a call on an input stream meets: the two waits, the call on the port, the queue and the clock.
pub record InEnv : Type 0 where
  pub before : ℕ → List Event
  pub port_env : Env
  pub after : ℕ → List Event
  pub rounds : ℕ → ReadRound
  pub now : ℕ

pub data ReadResult : Type 0 where
  failed : Retval → ReadResult
  count : ℕ → ReadResult

module _ (code : SessionType → ℕ) where
  -- The loop from sleep `n`; `--timeout_ms` is that of a `uint16_t`. `none` means that the fuel ran
  -- out. The result has the number of sleeps.
  unfoldable pub transition_loop :
      (ℕ → List Event) → BluetoothStreamState → ℕ → ℕ → ℕ → Port → Option (Port × Bool × ℕ)
  transition_loop sleeps state zero n timeout_ms p = none
  transition_loop sleeps state (suc fuel) n timeout_ms p = elim (state_eqb p.state state) [
    | false ↦ some (p, true, n)
    | true ↦ elim ((timeout_ms + 65535) % 65536 == 0) [
      | true ↦ some (deliver_all code p (sleeps n), false, n + 1)
      | false ↦
          transition_loop sleeps state fuel (n + 1) ((timeout_ms + 65535) % 65536)
            (deliver_all code p (sleeps n))
    ]
  ]

  unfoldable pub in_state_transition_timeout :
      (ℕ → List Event) → BluetoothStreamState → ℕ → Port → Option (Port × Bool × ℕ)
  in_state_transition_timeout sleeps state timeout_ms p =
      transition_loop sleeps state 65536 0 timeout_ms p

  abbrev pub own_input : StreamIn → AudioConfig
  own_input sin = record {
    sample_rate = sin.sample_rate;
    channel_mask = sin.channel_mask;
    format = sin.format;
  }

  -- The second wait of `in_standby`.
  abbrev pub standby_end :
      StreamIn
      → ℕ
      → Retval
      → List Event
      → Option (Port × Bool × ℕ)
      → Option (StreamIn × Retval × ℕ × List Event)
  standby_end sin slept retval rest none = none
  standby_end sin slept retval rest (some (p, done, n)) =
      some (record sin { port = p }, if done then retval else ok, slept + n, rest)

  -- `in_standby`, with the number of its sleeps.
  abbrev pub standby_from :
      StreamIn → InEnv → Option (Port × Bool × ℕ) → Option (StreamIn × Retval × ℕ × List Event)
  standby_from sin env none = none
  standby_from sin env (some (p, ready, slept)) =
      if not ready
      then some
          (record sin { port = p }, ok, slept, env.port_env.during ++ concat env.port_env.wakes)
      else if state_eqb p.state started
      then (let (q, done, rest) = suspend code p env.port_env in
          standby_end sin slept (retval_of done) rest (
            in_state_transition_timeout env.after suspending
              k_bluetooth_default_input_state_timeout_ms q))
      else if state_eqb p.state suspending
      then standby_end sin slept ok (env.port_env.during ++ concat env.port_env.wakes) (
          in_state_transition_timeout env.after suspending
            k_bluetooth_default_input_state_timeout_ms p)
      else some
          (record sin { port = p }, ok, slept, env.port_env.during ++ concat env.port_env.wakes)

  unfoldable pub in_standby : StreamIn → InEnv → Option (StreamIn × Retval × ℕ × List Event)
  in_standby sin env = standby_from sin env (
      in_state_transition_timeout env.before starting k_bluetooth_default_input_state_timeout_ms
        sin.port)

  -- What `in_read` does with a port that is not started; the second part is its `retval`.
  unfoldable pub start_input : Port → Env → Port × Retval × List Event
  start_input p env =
      if state_eqb p.state started
      then (p, ok, env.during ++ concat env.wakes)
      else if state_eqb p.state standby
      then (let (q, done, rest) = start code p env in (q, retval_of done, rest))
      else if state_eqb p.state suspending
      then (p, ebusy, env.during ++ concat env.wakes)
      else if state_eqb p.state disabled
      then (p, einval, env.during ++ concat env.wakes)
      else (p, ok, env.during ++ concat env.wakes)

  unfoldable pub read_data : Port → (ℕ → ReadRound) → ℕ → Option ℕ
  read_data p rounds bytes =
      if not (in_use code p) then some 0 else scaled 1 (in_read_pcm_data rounds true bytes)

  module _ (pcm_of : ℕ → PcmConfiguration) (frame_size : ChannelMask → AudioFormat → ℕ) where
    -- `audio_stream_in_frame_size`, from `in_get_channels` and `in_get_format`.
    unfoldable pub in_frame_size : StreamIn → Session → ℕ
    in_frame_size sin s =
        let (cfg, loaded) = load_input_config code pcm_of sin.port s (own_input sin) in
        if loaded
        then frame_size cfg.channel_mask cfg.format
        else frame_size sin.channel_mask sin.format

    unfoldable pub in_get_buffer_size : StreamIn → Session → ℕ
    in_get_buffer_size sin s = u64 (sin.frames_count * in_frame_size sin s)

    abbrev pub read_end :
        StreamIn → InEnv → List Event → Option ℕ → Option (StreamIn × ReadResult × List Event)
    read_end sin env rest none = none
    read_end sin env rest (some total) = some (
      record sin {
        last_read_time_us = env.now;
        frames_presented =
            u64 (sin.frames_presented + total / in_frame_size sin env.port_env.session);
      },
      count total,
      rest,
    )

    abbrev pub read_from :
        StreamIn
        → InEnv
        → ℕ
        → Option (Port × Bool × ℕ)
        → Option (StreamIn × ReadResult × List Event)
    read_from sin env bytes none = none
    read_from sin env bytes (some (p, ready, slept)) =
        if not ready
        then some (
          record sin { port = p },
          failed ebusy,
          env.port_env.during ++ concat env.port_env.wakes,
        )
        else (let (q, retval, rest) = start_input p env.port_env in
            if is_ok retval
            then read_end (record sin { port = q }) env rest (read_data q env.rounds bytes)
            else some (record sin { port = q }, failed retval, rest))

    -- The wait of `in_read`, and the rest of it.
    unfoldable pub in_read : StreamIn → InEnv → ℕ → Option (StreamIn × ReadResult × List Event)
    in_read sin env bytes = read_from sin env bytes (
        in_state_transition_timeout env.before starting k_bluetooth_default_input_state_timeout_ms
          sin.port)

  -- The port with the session that it leaves.
  unfoldable pub adev_close_input_stream : StreamIn → Session → Port × Session
  adev_close_input_stream sin s =
      tear_down code (if state_eqb sin.port.state disabled then sin.port else stop code sin.port) s
