-- ===== src/Hw/Device.antt =====
-- `adev_open_output_stream` and `adev_open_input_stream` of bluetooth/audio/hw/stream_apis.cc, with an
-- AIDL port. A failing call returns -EINVAL, which is `none`.
use device_phh_treble_doze.Base.{
  ℕ, ◌*◌, Bool, true, false, not, ◌&&◌, Option, none, some, ltb, ◌==◌, if◌then◌else◌,
}
use device_phh_treble_doze.Codecs.Software.{PcmConfiguration}
use device_phh_treble_doze.Session.Types.{SessionType, Session}
use device_phh_treble_doze.Hw.Types.{
  AudioDevice, ChannelMask, out_mono, out_stereo, AudioFormat, pcm_16_bit, AudioConfig, Port,
}
use device_phh_treble_doze.Hw.Port.{new_port, set_up, tear_down}
use device_phh_treble_doze.Hw.Config.{
  load_output_config, load_input_config, get_preferred_data_interval_us, frame_count,
}
use device_phh_treble_doze.Hw.Out.{StreamOut}
use device_phh_treble_doze.Hw.In.{StreamIn}

abbrev pub k_bluetooth_default_output_buffer_ms : ℕ
k_bluetooth_default_output_buffer_ms = 10

abbrev pub k_bluetooth_spatializer_output_buffer_ms : ℕ
k_bluetooth_spatializer_output_buffer_ms = 10

abbrev pub k_bluetooth_default_input_buffer_ms : ℕ
k_bluetooth_default_input_buffer_ms = 20

-- The preferred interval, or the default when there is none or it is 0.
abbrev pub interval_or : ℕ → Option ℕ → ℕ
interval_or default none = default
interval_or default (some us) = if us == 0 then default else us

-- Stereo is forced for mono with 16 bits.
unfoldable pub needs_mono : AudioConfig → Bool
needs_mono cfg = is_mono cfg.channel_mask && is_16_bit cfg.format
  where
    is_mono : ChannelMask → Bool
    is_mono out_mono = true
    is_mono _ = false

    is_16_bit : AudioFormat → Bool
    is_16_bit pcm_16_bit = true
    is_16_bit _ = false

-- At least the interval of the spatializer, for its flags.
unfoldable pub spatialized : Bool → ℕ → ℕ
spatialized flagged us =
    if flagged && ltb us (k_bluetooth_spatializer_output_buffer_ms * 1000)
    then k_bluetooth_spatializer_output_buffer_ms * 1000
    else us

module _ (code : SessionType → ℕ) (pcm_of : ℕ → PcmConfiguration) where
  -- Whether the flags are those of the spatializer is an argument, as is the caller's `config`. The
  -- result has the session with the port's callbacks and the new `config`.
  unfoldable pub adev_open_output_stream :
      (SessionType → Session)
      → AudioDevice
      → Bool
      → AudioConfig
      → Option (StreamOut × Session × AudioConfig)
  adev_open_output_stream sessions device flagged config =
      let (p, s, ready) = set_up code sessions (new_port code) device in
      if not ready
      then none
      else (let (loaded, _) = load_output_config code pcm_of p s config in
          let mono = needs_mono loaded in
          let q : Port = if mono then record p { is_stereo_to_mono = true } else p in
          let cfg : AudioConfig =
            if mono then record loaded { channel_mask = out_stereo } else loaded in
          let interval = spatialized flagged (
            interval_or (k_bluetooth_default_output_buffer_ms * 1000)
              (get_preferred_data_interval_us code pcm_of q s)) in
          some (
            record {
              port = q;
              last_write_time_us = 0;
              sample_rate = cfg.sample_rate;
              channel_mask = cfg.channel_mask;
              format = cfg.format;
              preferred_data_interval_us = interval;
              frames_count = frame_count interval cfg.sample_rate;
              frames_rendered = 0;
              frames_presented = 0;
            },
            s,
            cfg,
          ))

  -- A stream whose configuration cannot be loaded is destroyed, and its port torn down with it.
  unfoldable pub adev_open_input_stream :
      (SessionType → Session)
      → AudioDevice
      → AudioConfig
      → Option (StreamIn × AudioConfig) × Session
  adev_open_input_stream sessions device config =
      let (p, s, ready) = set_up code sessions (new_port code) device in
      if not ready
      then (none, (tear_down code p s).1)
      else (let (cfg, loaded) = load_input_config code pcm_of p s config in
          if not loaded
          then (none, (tear_down code p s).1)
          else (let interval =
                interval_or (k_bluetooth_default_input_buffer_ms * 1000)
                  (get_preferred_data_interval_us code pcm_of p s) in
              (
                some (
                  record {
                    port = p;
                    last_read_time_us = 0;
                    sample_rate = cfg.sample_rate;
                    channel_mask = cfg.channel_mask;
                    format = cfg.format;
                    preferred_data_interval_us = interval;
                    frames_count = frame_count interval cfg.sample_rate;
                    frames_presented = 0;
                  },
                  cfg,
                ),
                s,
              )))
