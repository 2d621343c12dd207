-- ===== src/Hw/Opening.antt =====
-- An output stream from its opening to its closing.
use device_phh_treble_doze.Base.{ℕ, ◌≡◌, Bool, true, false, some, arith}
use device_phh_treble_doze.Codecs.Software.{PcmConfiguration}
use device_phh_treble_doze.Session.Types.{SessionType, Session}
use device_phh_treble_doze.Session.State.{is_session_ready}
use device_phh_treble_doze.Hw.Types.{disabled, standby, AudioDevice, AudioConfig}
use device_phh_treble_doze.Hw.Port.{new_port, in_use, tear_down, stop}
use device_phh_treble_doze.Hw.Config.{frame_count}
use device_phh_treble_doze.Hw.Out.{StreamOut, close_port, adev_close_output_stream}
use device_phh_treble_doze.Hw.Device.{adev_open_output_stream}
use device_phh_treble_doze.Hw.Calls.{tear_down-set_up}

module _ (code : SessionType → ℕ) (pcm_of : ℕ → PcmConfiguration) where
  -- When an output stream is opened, the session of its type is ready, its port is in use and in
  -- standby, both its counters of frames are 0 and its buffer holds the frames of the preferred
  -- interval; closing it at once leaves the port disabled and out of use, and the session as it was
  -- before the opening.
  pub close-open :
      (sessions : SessionType → Session) (device : AudioDevice) (flagged : Bool)
      (config : AudioConfig) (out : StreamOut) (s : Session) (cfg : AudioConfig)
      → adev_open_output_stream code pcm_of sessions device flagged config ≡ some (out, s, cfg)
      → let (p, after) = adev_close_output_stream code out s in
        (is_session_ready (sessions out.port.session_type) ≡ true)
        × (in_use code out.port ≡ true)
        × (out.port.state ≡ standby)
        × (out.frames_presented ≡ 0)
        × (out.frames_rendered ≡ 0)
        × (out.frames_count ≡ frame_count out.preferred_data_interval_us out.sample_rate)
        × (p.state ≡ disabled)
        × (in_use code p ≡ false)
        × (after ≡ sessions out.port.session_type)
  unfolding adev_open_output_stream adev_close_output_stream close_port stop in_use tear_down
  close-open sessions device flagged config out s cfg opened =
      ground (arith, tear_down-set_up code sessions (new_port code) device)
