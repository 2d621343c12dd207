-- ===== src/Tests/Inputs.antt =====
-- Examples about the opening of streams and the input streams of the legacy audio HAL.
use device_phh_treble_doze.Base.{
  ℕ, ◌≡◌, refl, true, false, List, [], ◌∷◌, some, if◌then◌else◌, ◌==◌,
}
use device_phh_treble_doze.Session.Types.{SessionType, Session, Event, control_result, success}
use device_phh_treble_doze.Session.State.{get_audio_config, is_session_ready}
use device_phh_treble_doze.Session.Cookies.{
  cookie_upper_bound, free_cookie, is_registered, cookie_init_value, cookie_undefined,
  register_status_cback,
}
use device_phh_treble_doze.Session.Pcm.{ReadRound}
use device_phh_treble_doze.Hw.Types.{
  disabled, standby, starting, out_bluetooth_a2dp, out_stereo, in_mono, pcm_16_bit, AudioConfig,
}
use device_phh_treble_doze.Hw.Port.{
  set_up, init_session_type, device_session_type, port_callbacks, in_use, new_port,
}
use device_phh_treble_doze.Hw.Config.{
  output_channel_mode_to_audio_format, bits_per_sample_to_audio_format,
  get_preferred_data_interval_us, load_output_config, frame_count,
}
use device_phh_treble_doze.Hw.Out.{StreamOut, adev_close_output_stream}
use device_phh_treble_doze.Hw.In.{StreamIn, InEnv, in_standby}
use device_phh_treble_doze.Hw.Waits.{Settles, in_standby_returns}
use device_phh_treble_doze.Hw.Device.{needs_mono, spatialized, adev_open_output_stream}
use device_phh_treble_doze.Hw.Opening.{close-open}
use device_phh_treble_doze.Tests.Setup.{code, pcm_of, session, succeeds, port, out}

abbrev reading : StreamIn
reading = record {
  port = record port { state = starting };
  last_read_time_us = 0;
  sample_rate = 16000;
  channel_mask = in_mono;
  format = pcm_16_bit;
  preferred_data_interval_us = 20000;
  frames_count = 320;
  frames_presented = 0;
}

-- The success comes in the third sleep of the first wait.
abbrev third : ℕ → List Event
third n = if n == 2 then control_result 256 true success ∷ [] else []

abbrev waiting : ℕ → ReadRound
waiting n = record { ready = true; waiting = 7 ∷ 8 ∷ []; transfers = true }

abbrev in_env : InEnv
in_env = record {
  before = third;
  port_env = succeeds;
  after = λ n. [];
  rounds = waiting;
  now = 1000;
}

in_standby_returns_example : Settles code (in_standby code reading in_env)
in_standby_returns_example = in_standby_returns code reading in_env

abbrev config : AudioConfig
config = record { sample_rate = 48000; channel_mask = out_stereo; format = pcm_16_bit }

abbrev opened_out : StreamOut
opened_out = record out { frames_rendered = 0; frames_presented = 0 }

abbrev opened_session : Session
opened_session = record session { observers = (256, port_callbacks) ∷ [] }

abbrev sessions : SessionType → Session
sessions t = session

opens :
    adev_open_output_stream code pcm_of sessions out_bluetooth_a2dp false config
    ≡ some (opened_out, opened_session, record config { sample_rate = 44100 })
unfolding adev_open_output_stream set_up init_session_type device_session_type register_status_cback
    load_output_config is_session_ready cookie_upper_bound free_cookie is_registered
    cookie_init_value cookie_undefined needs_mono spatialized frame_count in_use
    get_preferred_data_interval_us get_audio_config new_port output_channel_mode_to_audio_format
    bits_per_sample_to_audio_format
opens = refl

close-open_example :
    let (p, after) = adev_close_output_stream code opened_out opened_session in
    (is_session_ready session ≡ true)
    × (in_use code port ≡ true)
    × (standby ≡ standby)
    × (opened_out.frames_presented ≡ 0)
    × (opened_out.frames_rendered ≡ 0)
    × (882 ≡ frame_count 20000 44100)
    × (p.state ≡ disabled)
    × (in_use code p ≡ false)
    × (after ≡ session)
close-open_example =
    close-open code pcm_of sessions out_bluetooth_a2dp false config opened_out opened_session
      (record config { sample_rate = 44100 }) opens
