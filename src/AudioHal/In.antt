-- ===== src/AudioHal/In.antt =====
-- audio/hal/StreamIn.cpp: the life of an input stream, and the queues that `prepareForReading`
-- makes.
use device_phh_treble_doze.Base.{
  ℕ, ◌*◌, ◌/◌, ◌%◌, Bool, true, false, not, ◌||◌, Option, none, some, ltb, leb, ◌==◌, if◌then◌else◌,
}
use device_phh_treble_doze.AudioHal.Status.{Result, ok, invalid_arguments, invalid_state}
use device_phh_treble_doze.AudioHal.Out.{max_buffer_size, PrepareEnv}
use device_phh_treble_doze.AudioHal.Device.{Device, close_input_stream}

-- `data_mq` is the size of the data queue; the other queues, the thread and the event flag come
-- with it.
pub record StreamIn : Type 0 where
  pub stop_read_thread : Bool
  pub data_mq : Option ℕ

abbrev pub new_stream_in : StreamIn
new_stream_in = record { stop_read_thread = false; data_mq = none }

-- The product of two `uint32_t` wraps around.
unfoldable pub prepare_for_reading : StreamIn → PrepareEnv → ℕ → ℕ → StreamIn × Result
prepare_for_reading sin env frame_size frames_count = elim sin.data_mq [
  | some size ↦ (sin, invalid_state)
  | none ↦
      if frame_size == 0 || frames_count == 0
      then (sin, invalid_arguments)
      else if ltb (max_buffer_size / frames_count) frame_size
      then (sin, invalid_arguments)
      else if not env.command_mq_valid || (not env.data_mq_valid || not env.status_mq_valid)
      then (sin, invalid_arguments)
      else if not env.event_flag_ok
      then (sin, invalid_arguments)
      else if not env.init_ok
      then (sin, invalid_arguments)
      else if not env.run_ok
      then (sin, invalid_arguments)
      else (record sin { data_mq = some (frame_size * frames_count % 4294967296) }, ok)
]

-- `close`, of the interface version `major`. `none` is the fatal error of the device.
unfoldable pub close : ℕ → Device → StreamIn → Option (Device × StreamIn × Result)
close major d sin =
    if sin.stop_read_thread
    then some (d, sin, invalid_state)
    else if leb 6 major
    then (elim (close_input_stream d) [
      | none ↦ none
      | some d' ↦ some (d', record sin { stop_read_thread = true }, ok)
    ])
    else some (d, record sin { stop_read_thread = true }, ok)

-- The destructor.
unfoldable pub destroy : ℕ → Device → StreamIn → Option Device
destroy major d sin = elim (close major d sin) [
  | none ↦ none
  | some (d', sin', result) ↦ if leb major 5 then close_input_stream d' else some d'
]
