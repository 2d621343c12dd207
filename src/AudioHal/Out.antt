-- ===== src/AudioHal/Out.antt =====
-- audio/hal/StreamOut.cpp: the life of an output stream, and the queues that `prepareForWriting`
-- makes.
use device_phh_treble_doze.Base.{
  ℕ, ◌*◌, ◌/◌, ◌%◌, Bool, true, false, not, ◌||◌, Option, none, some, ltb, leb, ◌==◌, if◌then◌else◌,
}
use device_phh_treble_doze.AudioHal.Status.{Result, ok, invalid_arguments, invalid_state}
use device_phh_treble_doze.AudioHal.Device.{Device, close_output_stream}

-- `data_mq` is the size of the data queue; the other queues, the thread and the event flag come
-- with it.
pub record StreamOut : Type 0 where
  pub stop_write_thread : Bool
  pub data_mq : Option ℕ

abbrev pub new_stream_out : StreamOut
new_stream_out = record { stop_write_thread = false; data_mq = none }

-- `MAX_BUFFER_SIZE`, as it is computed.
abbrev pub max_buffer_size : ℕ
max_buffer_size = 2147483648

-- Which of the steps of `prepareForWriting` succeed.
pub record PrepareEnv : Type 0 where
  pub command_mq_valid : Bool
  pub data_mq_valid : Bool
  pub status_mq_valid : Bool
  pub event_flag_ok : Bool
  pub init_ok : Bool
  pub run_ok : Bool

-- The product of two `uint32_t` wraps around.
unfoldable pub prepare_for_writing : StreamOut → PrepareEnv → ℕ → ℕ → StreamOut × Result
prepare_for_writing out env frame_size frames_count = elim out.data_mq [
  | some size ↦ (out, invalid_state)
  | none ↦
      if frame_size == 0 || frames_count == 0
      then (out, invalid_arguments)
      else if ltb (max_buffer_size / frames_count) frame_size
      then (out, invalid_arguments)
      else if not env.command_mq_valid || (not env.data_mq_valid || not env.status_mq_valid)
      then (out, invalid_arguments)
      else if not env.event_flag_ok
      then (out, invalid_arguments)
      else if not env.init_ok
      then (out, invalid_arguments)
      else if not env.run_ok
      then (out, invalid_arguments)
      else (record out { data_mq = some (frame_size * frames_count % 4294967296) }, ok)
]

-- `close`, of the interface version `major`. `none` is the fatal error of the device.
unfoldable pub close : ℕ → Device → StreamOut → Option (Device × StreamOut × Result)
close major d out =
    if out.stop_write_thread
    then some (d, out, invalid_state)
    else if leb 6 major
    then (elim (close_output_stream d) [
      | none ↦ none
      | some d' ↦ some (d', record out { stop_write_thread = true }, ok)
    ])
    else some (d, record out { stop_write_thread = true }, ok)

-- The destructor.
unfoldable pub destroy : ℕ → Device → StreamOut → Option Device
destroy major d out = elim (close major d out) [
  | none ↦ none
  | some (d', out', result) ↦ if leb major 5 then close_output_stream d' else some d'
]
