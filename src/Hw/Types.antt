-- ===== src/Hw/Types.antt =====
-- bluetooth/audio/hw/stream_apis.h and device_port_proxy.h: the states and the data of a port.
use device_phh_treble_doze.Base.{ℕ, Bool, true, false, List, ◌%◌}
use device_phh_treble_doze.Session.Types.{
  SessionType, a2dp_software_encoding, a2dp_hardware_offload_encoding, le_audio_software_encoding,
  le_audio_software_decoding, le_audio_hardware_offload_encoding,
  le_audio_hardware_offload_decoding, le_audio_broadcast_software_encoding,
  le_audio_broadcast_hardware_offload_encoding, Session, Event,
}

pub data BluetoothStreamState : Type 0 where
  disabled standby starting started suspending unknown_state : BluetoothStreamState

abbrev pub state_eqb : BluetoothStreamState → BluetoothStreamState → Bool
state_eqb disabled disabled = true
state_eqb standby standby = true
state_eqb starting starting = true
state_eqb started started = true
state_eqb suspending suspending = true
state_eqb unknown_state unknown_state = true
state_eqb _ _ = false

-- The devices that `init_session_type` names.
pub data AudioDevice : Type 0 where
  out_bluetooth_a2dp out_bluetooth_a2dp_headphones out_bluetooth_a2dp_speaker : AudioDevice
  out_hearing_aid out_ble_headset out_ble_speaker in_ble_headset out_ble_broadcast : AudioDevice
  other_device : ℕ → AudioDevice

-- The masks and formats that the sources name; the others are told apart by a number.
pub data ChannelMask : Type 0 where
  channel_none out_mono out_stereo in_mono in_stereo : ChannelMask
  other_mask : ℕ → ChannelMask

pub data AudioFormat : Type 0 where
  pcm_16_bit pcm_24_bit_packed pcm_8_24_bit pcm_32_bit : AudioFormat
  other_format : ℕ → AudioFormat

-- `audio_config_t`.
pub record AudioConfig : Type 0 where
  pub sample_rate : ℕ
  pub channel_mask : ChannelMask
  pub format : AudioFormat

-- The fields of `BluetoothAudioPortAidl`.
pub record Port : Type 0 where
  pub cookie : ℕ
  pub state : BluetoothStreamState
  pub session_type : SessionType
  pub is_stereo_to_mono : Bool

-- What a call on the port meets: the session of the port's type, what the stack answers when it is
-- asked (`isOk()`), the callbacks that come while it is asked, and those that come while the call
-- waits, by the wake-ups of the waiting thread. A wait that has used up its wake-ups times out.
pub record Env : Type 0 where
  pub session : Session
  pub answer : Bool
  pub during : List Event
  pub wakes : List (List Event)

-- `IsA2dp` and `IsLeAudio`.
abbrev pub is_a2dp_port : SessionType → Bool
is_a2dp_port a2dp_software_encoding = true
is_a2dp_port a2dp_hardware_offload_encoding = true
is_a2dp_port _ = false

abbrev pub is_le_audio_port : SessionType → Bool
is_le_audio_port le_audio_software_encoding = true
is_le_audio_port le_audio_software_decoding = true
is_le_audio_port le_audio_hardware_offload_encoding = true
is_le_audio_port le_audio_hardware_offload_decoding = true
is_le_audio_port le_audio_broadcast_software_encoding = true
is_le_audio_port le_audio_broadcast_hardware_offload_encoding = true
is_le_audio_port _ = false

abbrev pub k_bluetooth_default_sample_rate : ℕ
k_bluetooth_default_sample_rate = 44100

abbrev pub k_bluetooth_default_format : AudioFormat
k_bluetooth_default_format = pcm_16_bit

abbrev pub k_bluetooth_default_output_mask : ChannelMask
k_bluetooth_default_output_mask = out_stereo

abbrev pub k_bluetooth_default_input_mask : ChannelMask
k_bluetooth_default_input_mask = in_mono

-- The range of the 64-bit and 32-bit unsigned counters.
abbrev pub u64 : ℕ → ℕ
u64 n = n % 18446744073709551616

abbrev pub u32 : ℕ → ℕ
u32 n = n % 4294967296
