-- ===== src/AudioHal/Device.antt =====
-- audio/hal/Device.cpp: the opening and closing of streams, and of the device.
use device_phh_treble_doze.Base.{
  ℕ, ◌+◌, ◌-◌, Bool, true, false, not, ◌||◌, Option, none, some, ◌==◌, if◌then◌else◌,
}
use device_phh_treble_doze.AudioHal.Status.{
  Result, invalid_arguments, invalid_state, HalStatus, analyze_status, is_success,
}

pub record Device : Type 0 where
  pub is_closed : Bool
  pub opened_streams_count : ℕ

abbrev pub new_device : Device
new_device = record { is_closed = false; opened_streams_count = 0 }

-- `closeOutputStream` and `closeInputStream`; `none` is the fatal error of a count that is 0.
unfoldable pub close_output_stream : Device → Option Device
close_output_stream d =
    if d.opened_streams_count == 0
    then none
    else some (record d { opened_streams_count = d.opened_streams_count - 1 })

unfoldable pub close_input_stream : Device → Option Device
close_input_stream d =
    if d.opened_streams_count == 0
    then none
    else some (record d { opened_streams_count = d.opened_streams_count - 1 })

-- Whether the conversions of the arguments succeed, and what the legacy device answers.
pub record OpenEnv : Type 0 where
  pub config_ok : Bool
  pub address_ok : Bool
  pub flags_ok : Bool
  pub source_ok : Bool
  pub metadata : HalStatus
  pub tracks : ℕ
  pub status : HalStatus

-- The device, the result, and whether there is a stream.
unfoldable pub open_output_stream_core : Device → OpenEnv → Device × Result × Bool
open_output_stream_core d env =
    if not env.config_ok
    then (d, invalid_arguments, false)
    else if not env.address_ok
    then (d, invalid_arguments, false)
    else if not env.flags_ok
    then (d, invalid_arguments, false)
    else if is_success env.status
    then (
      record d { opened_streams_count = d.opened_streams_count + 1 },
      analyze_status env.status,
      true,
    )
    else (d, analyze_status env.status, false)

unfoldable pub open_input_stream_core : Device → OpenEnv → Device × Result × Bool
open_input_stream_core d env =
    if not env.config_ok
    then (d, invalid_arguments, false)
    else if not env.address_ok
    then (d, invalid_arguments, false)
    else if not env.flags_ok || not env.source_ok
    then (d, invalid_arguments, false)
    else if is_success env.status
    then (
      record d { opened_streams_count = d.opened_streams_count + 1 },
      analyze_status env.status,
      true,
    )
    else (d, analyze_status env.status, false)

-- `openOutputStreamImpl` and `openInputStreamImpl`, of the versions from 4 on.
unfoldable pub open_output_stream : Device → OpenEnv → Device × Result × Bool
open_output_stream d env =
    if not (is_success env.metadata)
    then (d, analyze_status env.metadata, false)
    else open_output_stream_core d env

unfoldable pub open_input_stream : Device → OpenEnv → Device × Result × Bool
open_input_stream d env =
    if env.tracks == 0
    then (d, invalid_arguments, false)
    else if not (is_success env.metadata)
    then (d, analyze_status env.metadata, false)
    else open_input_stream_core d env

-- The last argument is the answer of `audio_hw_device_close`.
unfoldable pub do_close : Device → HalStatus → Device × Result
do_close d status =
    if d.is_closed || not (d.opened_streams_count == 0)
    then (d, invalid_state)
    else (record d { is_closed = true }, analyze_status status)
