-- ===== src/Middleware/Convert.antt =====
-- The conversions of HidlToAidlMiddleware.cpp: session types, statuses and configurations. A value
-- of an enumeration that the interface does not name is told apart by a number.
use device_phh_treble_doze.Base.{ℕ, ℤ, pos, int_eqb, if◌then◌else◌}
use device_phh_treble_doze.A2dp.Codec.{ChannelMode, mono, stereo}
use device_phh_treble_doze.Codecs.Software.{PcmConfiguration}
use device_phh_treble_doze.Session.Types.{
  SessionType, unknown, a2dp_software_encoding, a2dp_hardware_offload_encoding,
  hearing_aid_software_encoding, le_audio_software_encoding, le_audio_software_decoding,
  le_audio_hardware_offload_encoding, le_audio_hardware_offload_decoding, BluetoothAudioStatus,
  success, unsupported_codec_configuration,
}
use device_phh_treble_doze.Hw.Config.{to_u32}

-- The session types of the 2.1 interface; those of 2.0 are the first of them.
pub data HidlSessionType : Type 0 where
  hidl_unknown hidl_a2dp_software_encoding hidl_a2dp_hardware_offload : HidlSessionType
  hidl_hearing_aid_software_encoding hidl_le_audio_software_encoding : HidlSessionType
  hidl_le_audio_software_decoded hidl_le_audio_hardware_offload_encoding : HidlSessionType
  hidl_le_audio_hardware_offload_decoding : HidlSessionType

unfoldable pub from_session_type_2_1 : HidlSessionType → SessionType
from_session_type_2_1 hidl_unknown = unknown
from_session_type_2_1 hidl_a2dp_software_encoding = a2dp_software_encoding
from_session_type_2_1 hidl_a2dp_hardware_offload = a2dp_hardware_offload_encoding
from_session_type_2_1 hidl_hearing_aid_software_encoding = hearing_aid_software_encoding
from_session_type_2_1 hidl_le_audio_software_encoding = le_audio_software_encoding
from_session_type_2_1 hidl_le_audio_software_decoded = le_audio_software_decoding
from_session_type_2_1 hidl_le_audio_hardware_offload_encoding = le_audio_hardware_offload_encoding
from_session_type_2_1 hidl_le_audio_hardware_offload_decoding = le_audio_hardware_offload_decoding

pub data HidlStatus : Type 0 where
  hidl_success hidl_unsupported_codec_configuration hidl_failure : HidlStatus

unfoldable pub to_hidl_status : BluetoothAudioStatus → HidlStatus
to_hidl_status success = hidl_success
to_hidl_status unsupported_codec_configuration = hidl_unsupported_codec_configuration
to_hidl_status _ = hidl_failure

pub data SampleRate : Type 0 where
  rate_unknown rate_44100 rate_48000 rate_88200 rate_96000 rate_176400 : SampleRate
  rate_192000 rate_16000 rate_24000 rate_8000 rate_32000 : SampleRate

unfoldable pub to_hidl_sample_rate : ℤ → SampleRate
to_hidl_sample_rate hz =
    if int_eqb hz (pos 44100)
    then rate_44100
    else if int_eqb hz (pos 48000)
    then rate_48000
    else if int_eqb hz (pos 88200)
    then rate_88200
    else if int_eqb hz (pos 96000)
    then rate_96000
    else if int_eqb hz (pos 176400)
    then rate_176400
    else if int_eqb hz (pos 192000)
    then rate_192000
    else if int_eqb hz (pos 16000)
    then rate_16000
    else if int_eqb hz (pos 24000)
    then rate_24000
    else if int_eqb hz (pos 8000)
    then rate_8000
    else if int_eqb hz (pos 32000)
    then rate_32000
    else rate_unknown

pub data BitsPerSample : Type 0 where
  bits_unknown bits_16 bits_24 bits_32 : BitsPerSample

unfoldable pub to_hidl_bits_per_sample : ℤ → BitsPerSample
to_hidl_bits_per_sample bits =
    if int_eqb bits (pos 16)
    then bits_16
    else if int_eqb bits (pos 24)
    then bits_24
    else if int_eqb bits (pos 32)
    then bits_32
    else bits_unknown

pub data HidlChannelMode : Type 0 where
  channel_unknown channel_mono channel_stereo : HidlChannelMode

unfoldable pub to_hidl_channel_mode : ChannelMode → HidlChannelMode
to_hidl_channel_mode mono = channel_mono
to_hidl_channel_mode stereo = channel_stereo
to_hidl_channel_mode _ = channel_unknown

-- The parameters of 2.0, whose sample rate is a cast of that of 2.1.
pub record PcmParameters : Type 0 where
  pub sample_rate : SampleRate
  pub channel_mode : HidlChannelMode
  pub bits_per_sample : BitsPerSample

unfoldable pub to_hidl_pcm_config_2_0 : PcmConfiguration → PcmParameters
to_hidl_pcm_config_2_0 c = record {
  sample_rate = to_hidl_sample_rate c.sample_rate_hz;
  channel_mode = to_hidl_channel_mode c.channel_mode;
  bits_per_sample = to_hidl_bits_per_sample c.bits_per_sample;
}

-- The parameters of 2.1: those of 2.0 and the interval.
pub record PcmParameters21 : Type 0 where
  pub pcm : PcmParameters
  pub data_interval_us : ℕ

unfoldable pub to_hidl_pcm_config_2_1 : PcmConfiguration → PcmParameters21
to_hidl_pcm_config_2_1 c = record {
  pcm = to_hidl_pcm_config_2_0 c;
  data_interval_us = to_u32 c.data_interval_us;
}
