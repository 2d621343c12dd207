-- ===== src/LeAudio/Software.antt =====
-- The queue of bluetooth/audio/hal/LeAudioSoftwareAudioProvider.cpp: the checks of `startSession` and
-- the size. Its quotients in floating point are exact at the sample rates that pass the checks.
use device_phh_treble_doze.Base.{
  ℕ, ◌*◌, ◌/◌, ◌%◌, not, Option, none, some, pos, int_eqb, ◌==◌, if◌then◌else◌,
}
use device_phh_treble_doze.A2dp.Codec.{ChannelMode, mono, stereo}
use device_phh_treble_doze.Session.Types.{
  SessionType, le_audio_software_encoding, le_audio_broadcast_software_encoding,
  le_audio_software_decoding,
}
use device_phh_treble_doze.Codecs.Software.{
  PcmConfiguration, magnitude, is_software_pcm_configuration_valid,
}

abbrev pub k_buffer_out_count : ℕ
k_buffer_out_count = 2

abbrev pub k_buffer_in_count : ℕ
k_buffer_in_count = 2

unfoldable pub channel_mode_to_channel_count : ChannelMode → ℕ
channel_mode_to_channel_count mono = 1
channel_mode_to_channel_count stereo = 2
channel_mode_to_channel_count _ = 0

unfoldable pub buffer_modifier : SessionType → ℕ
buffer_modifier le_audio_software_encoding = k_buffer_out_count
buffer_modifier le_audio_broadcast_software_encoding = k_buffer_out_count
buffer_modifier le_audio_software_decoding = k_buffer_in_count
buffer_modifier _ = 0

unfoldable pub le_data_mq_size : SessionType → PcmConfiguration → ℕ
le_data_mq_size t c =
    let bytes_per_sample =
      if int_eqb c.bits_per_sample (pos 24) then 4 else magnitude c.bits_per_sample / 8 in
    magnitude c.sample_rate_hz
    * channel_mode_to_channel_count c.channel_mode
    * bytes_per_sample
    * (magnitude c.data_interval_us / 1000)
    * buffer_modifier t
    / 1000
    % 4294967296

-- The size of the queue that is made; `none` is `EX_ILLEGAL_ARGUMENT`.
unfoldable pub le_queue : SessionType → PcmConfiguration → Option ℕ
le_queue t c =
    if not (is_software_pcm_configuration_valid c)
    then none
    else if le_data_mq_size t c == 0
    then none
    else some (le_data_mq_size t c)
