-- ===== src/Hw/Replies.antt =====
-- The calls of bluetooth/audio/hw/stream_apis.cc that only read a stream: `out_get_parameters`, the
-- position of an input stream, and the setters of a rate.
use Prim.Native.String as Text
use Prim.Native.String.{String}
use device_phh_treble_doze.Base.{
  ℕ, ℤ, pos, negsuc, ◌*◌, ◌/◌, List, [], ◌∷◌, Option, none, some, ◌==◌, if◌then◌else◌,
}
use device_phh_treble_doze.Codecs.Software.{PcmConfiguration}
use device_phh_treble_doze.Session.Types.{SessionType, Session}
use device_phh_treble_doze.Hw.Types.{
  standby, state_eqb, ChannelMask, out_mono, out_stereo, AudioFormat, pcm_16_bit, pcm_24_bit_packed,
  pcm_8_24_bit, pcm_32_bit, AudioConfig, u64,
}
use device_phh_treble_doze.Hw.Config.{load_output_config}
use device_phh_treble_doze.Hw.Out.{StreamOut, Retval, ok, enosys}
use device_phh_treble_doze.Hw.In.{StreamIn, in_frame_size}
use device_phh_treble_doze.Hw.Position.{PositionEnv, position_of, get_presentation_position}
use device_phh_treble_doze.Hw.Params.{
  ParamNames, insert, lookup, is_found, is_empty, parse_audio_params,
}

-- The texts of the rates, channels and formats that are named; the others give an empty text.
unfoldable pub rate_text : ℕ → String
rate_text rate =
    if rate == 16000
    then "16000"
    else if rate == 24000
    then "24000"
    else if rate == 44100
    then "44100"
    else if rate == 48000
    then "48000"
    else if rate == 88200
    then "88200"
    else if rate == 96000
    then "96000"
    else if rate == 176400
    then "176400"
    else if rate == 192000
    then "192000"
    else ""

unfoldable pub channels_text : ChannelMask → String
channels_text out_mono = "AUDIO_CHANNEL_OUT_MONO"
channels_text out_stereo = "AUDIO_CHANNEL_OUT_STEREO"
channels_text _ = ""

unfoldable pub format_text : AudioFormat → String
format_text pcm_16_bit = "AUDIO_FORMAT_PCM_16_BIT"
format_text pcm_24_bit_packed = "AUDIO_FORMAT_PCM_24_BIT_PACKED"
format_text pcm_8_24_bit = "AUDIO_FORMAT_PCM_8_24_BIT"
format_text pcm_32_bit = "AUDIO_FORMAT_PCM_32_BIT"
format_text _ = ""

-- The entry of a name that is asked for.
abbrev pub answer :
    List (String × String) → String → String → List (String × String) → List (String × String)
answer params name text returned =
    if is_found (lookup params name) then insert returned name text else returned

-- `return_params`, the latest entry first.
unfoldable pub return_params :
    ParamNames → List (String × String) → AudioConfig → List (String × String)
return_params names params cfg = answer params names.sup_formats (format_text cfg.format) (
    answer params names.sup_channels (channels_text cfg.channel_mask)
      (answer params names.sup_sampling_rates (rate_text cfg.sample_rate) []))

unfoldable pub params_text : List (String × String) → String
params_text [] = ""
params_text ((key, value) ∷ params) =
    Text.◌++◌ key (Text.◌++◌ "=" (Text.◌++◌ value (Text.◌++◌ ";" (params_text params))))

module _ (code : SessionType → ℕ) (pcm_of : ℕ → PcmConfiguration) where
  -- `arrange` is the order in which the map is gone through; the fifth argument is what the local
  -- variable of the configuration holds before it is loaded.
  unfoldable pub out_get_parameters :
      ParamNames
      → (String → String → List String)
      → (List (String × String) → List (String × String))
      → StreamOut
      → AudioConfig
      → Session
      → String
      → String
  out_get_parameters names split arrange out before s keys =
      let params = parse_audio_params split keys in
      if is_empty params
      then ""
      else let (cfg, loaded) = load_output_config code pcm_of out.port s before in
        params_text (arrange (return_params names params cfg))

  module _ (frame_size : ChannelMask → AudioFormat → ℕ) where
    -- The frames, and the time in microseconds; the two are results of the type `int64_t`.
    unfoldable pub in_calculate_starving_delay_ms : StreamIn → PositionEnv → ℕ × ℕ
    in_calculate_starving_delay_ms sin env =
        let (retval, position) = get_presentation_position code sin.port env in
        (
          position_of sin.frames_presented
              (position.transmitted_octets / in_frame_size code pcm_of frame_size sin env.session)
              (u64 (position.delay_ns / 1000000 * sin.sample_rate) / 1000),
          position.timestamp_ns / 1000,
        )

    -- `none` in the place of the results when they are not written.
    unfoldable pub in_get_capture_position : StreamIn → PositionEnv → Retval × Option (ℕ × ℕ)
    in_get_capture_position sin env =
        if state_eqb sin.port.state standby
        then (enosys, none)
        else (ok, some (in_calculate_starving_delay_ms sin env))

-- The setters take no value but the one that the stream has. That of an output gives -1.
unfoldable pub out_set_sample_rate : StreamOut → ℕ → ℤ
out_set_sample_rate out rate = if rate == out.sample_rate then pos 0 else negsuc 0

unfoldable pub in_set_sample_rate : StreamIn → ℕ → Retval
in_set_sample_rate sin rate = if rate == sin.sample_rate then ok else enosys
