-- ===== src/Hw/Config.antt =====
-- The audio configuration of a port, in bluetooth/audio/hw/device_port_proxy.cc, and `FrameCount` of
-- utils.cc. What the content of a configuration means (`pcm_of`) is a parameter.
use device_phh_treble_doze.Base.{
  ℕ, ℤ, pos, negsuc, ◌-◌, ◌*◌, ◌/◌, Bool, true, false, not, Option, none, some, int_eqb,
  if◌then◌else◌,
}
use device_phh_treble_doze.A2dp.Codec.{ChannelMode, mono, stereo, unknown}
use device_phh_treble_doze.Codecs.Software.{PcmConfiguration}
use device_phh_treble_doze.Session.Types.{SessionType, pcm_config, tag_eqb, Session}
use device_phh_treble_doze.Session.State.{get_audio_config}
use device_phh_treble_doze.Hw.Types.{
  ChannelMask, out_mono, out_stereo, in_mono, in_stereo, AudioFormat, pcm_16_bit, pcm_24_bit_packed,
  pcm_8_24_bit, pcm_32_bit, AudioConfig, Port, is_a2dp_port, k_bluetooth_default_sample_rate,
  k_bluetooth_default_format, k_bluetooth_default_output_mask, k_bluetooth_default_input_mask, u64,
  u32,
}
use device_phh_treble_doze.Hw.Port.{in_use}

unfoldable pub output_channel_mode_to_audio_format : ChannelMode → ChannelMask
output_channel_mode_to_audio_format mono = out_mono
output_channel_mode_to_audio_format stereo = out_stereo
output_channel_mode_to_audio_format _ = k_bluetooth_default_output_mask

unfoldable pub input_channel_mode_to_audio_format : ChannelMode → ChannelMask
input_channel_mode_to_audio_format mono = in_mono
input_channel_mode_to_audio_format stereo = in_stereo
input_channel_mode_to_audio_format _ = k_bluetooth_default_input_mask

-- The test of the two session types is that of `IsA2dp`.
unfoldable pub bits_per_sample_to_audio_format : ℤ → SessionType → AudioFormat
bits_per_sample_to_audio_format bits t =
    if int_eqb bits (pos 16)
    then pcm_16_bit
    else if int_eqb bits (pos 24)
    then (if is_a2dp_port t then pcm_24_bit_packed else pcm_8_24_bit)
    else if int_eqb bits (pos 32)
    then pcm_32_bit
    else k_bluetooth_default_format

-- The conversions of an `int32_t` to `uint32_t` and to `size_t`.
abbrev pub to_u32 : ℤ → ℕ
to_u32 (pos n) = u32 n
to_u32 (negsuc n) = 4294967295 - u32 n

abbrev pub to_u64 : ℤ → ℕ
to_u64 (pos n) = u64 n
to_u64 (negsuc n) = 18446744073709551615 - u64 n

abbrev pub is_unknown_mode : ChannelMode → Bool
is_unknown_mode unknown = true
is_unknown_mode _ = false

abbrev pub default_config : ChannelMask → AudioConfig
default_config mask = record {
  sample_rate = k_bluetooth_default_sample_rate;
  channel_mask = mask;
  format = k_bluetooth_default_format;
}

unfoldable pub frame_count : ℕ → ℕ → ℕ
frame_count microseconds sample_rate = u64 (microseconds * sample_rate) / 1000000

module _ (code : SessionType → ℕ) (pcm_of : ℕ → PcmConfiguration) where
  -- `none` when the interval is left alone and the result is false.
  unfoldable pub get_preferred_data_interval_us : Port → Session → Option ℕ
  get_preferred_data_interval_us p s =
      if not (in_use code p)
      then none
      else if not (tag_eqb (get_audio_config s).tag pcm_config)
      then none
      else some (to_u64 (pcm_of (get_audio_config s).content).data_interval_us)

  -- The third argument is what `*audio_cfg` holds before the call.
  unfoldable pub load_output_config : Port → Session → AudioConfig → AudioConfig × Bool
  load_output_config p s cfg =
      if not (in_use code p)
      then (default_config k_bluetooth_default_output_mask, false)
      else if not (tag_eqb (get_audio_config s).tag pcm_config)
      then (default_config k_bluetooth_default_output_mask, false)
      else (let pcm = pcm_of (get_audio_config s).content in
          if is_unknown_mode pcm.channel_mode then (cfg, false) else (
            record {
              sample_rate = to_u32 pcm.sample_rate_hz;
              channel_mask =
                  if p.is_stereo_to_mono
                  then out_stereo
                  else output_channel_mode_to_audio_format pcm.channel_mode;
              format = bits_per_sample_to_audio_format pcm.bits_per_sample p.session_type;
            },
            true,
          ))

  unfoldable pub load_input_config : Port → Session → AudioConfig → AudioConfig × Bool
  load_input_config p s cfg =
      if not (in_use code p)
      then (default_config k_bluetooth_default_input_mask, false)
      else if not (tag_eqb (get_audio_config s).tag pcm_config)
      then (default_config k_bluetooth_default_input_mask, false)
      else (let pcm = pcm_of (get_audio_config s).content in
          if is_unknown_mode pcm.channel_mode then (cfg, false) else (
            record {
              sample_rate = to_u32 pcm.sample_rate_hz;
              channel_mask = input_channel_mode_to_audio_format pcm.channel_mode;
              format = bits_per_sample_to_audio_format pcm.bits_per_sample p.session_type;
            },
            true,
          ))
