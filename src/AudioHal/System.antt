-- ===== src/AudioHal/System.antt =====
-- A device of audio/hal with the streams that clients have opened on it, and what can happen to it.
use device_phh_treble_doze.Base.{
  ℕ, Bool, List, [], ◌∷◌, ◌++◌, Option, none, some, get_or, set, if◌then◌else◌,
}
use device_phh_treble_doze.AudioHal.Status.{HalStatus}
use device_phh_treble_doze.AudioHal.Device.{
  Device, new_device, OpenEnv, open_output_stream, open_input_stream, do_close,
}
use device_phh_treble_doze.AudioHal.Out as Out
use device_phh_treble_doze.AudioHal.Out.{StreamOut, new_stream_out, PrepareEnv, prepare_for_writing}
use device_phh_treble_doze.AudioHal.In as In
use device_phh_treble_doze.AudioHal.In.{StreamIn, new_stream_in, prepare_for_reading}

-- A stream, or what its destruction leaves.
pub data Slot : Type 0 where
  output : StreamOut → Slot
  input : StreamIn → Slot
  gone : Slot

pub record System : Type 0 where
  pub device : Device
  pub streams : List Slot

abbrev pub new_system : System
new_system = record { device = new_device; streams = [] }

-- Streams are named by the order in which they were opened.
pub data Event : Type 0 where
  opens_output opens_input : OpenEnv → Event
  prepares : ℕ → PrepareEnv → ℕ → ℕ → Event
  closes destroys : ℕ → Event
  closes_device : HalStatus → Event

abbrev pub added : Bool → Slot → System → Device → System
added opened slot sys d = record {
  device = d;
  streams = if opened then sys.streams ++ slot ∷ [] else sys.streams;
}

abbrev pub prepare_slot : PrepareEnv → ℕ → ℕ → Slot → Slot
prepare_slot env size n (output out) = output (prepare_for_writing out env size n).0
prepare_slot env size n (input sin) = input (prepare_for_reading sin env size n).0
prepare_slot env size n gone = gone

-- The device and the slot after a call; a stream that is gone cannot be called.
abbrev pub close_slot : ℕ → Device → Slot → Option (Device × Slot)
close_slot major d (output out) = elim (Out.close major d out) [
  | none ↦ none
  | some (d', out', result) ↦ some (d', output out')
]
close_slot major d (input sin) = elim (In.close major d sin) [
  | none ↦ none
  | some (d', sin', result) ↦ some (d', input sin')
]
close_slot major d gone = some (d, gone)

abbrev pub destroy_slot : ℕ → Device → Slot → Option (Device × Slot)
destroy_slot major d (output out) = elim (Out.destroy major d out) [
  | none ↦ none
  | some d' ↦ some (d', gone)
]
destroy_slot major d (input sin) = elim (In.destroy major d sin) [
  | none ↦ none
  | some d' ↦ some (d', gone)
]
destroy_slot major d gone = some (d, gone)

abbrev pub put_slot : System → ℕ → Option (Device × Slot) → Option System
put_slot sys n none = none
put_slot sys n (some (d, slot)) = some (record { device = d; streams = set sys.streams n slot })

-- `none` is a fatal error.
unfoldable pub step : ℕ → Event → System → Option System
step major (opens_output env) sys =
    let (d, result, opened) = open_output_stream sys.device env in
    some (added opened (output new_stream_out) sys d)
step major (opens_input env) sys =
    let (d, result, opened) = open_input_stream sys.device env in
    some (added opened (input new_stream_in) sys d)
step major (prepares n env size count) sys = some (record sys {
  streams = set sys.streams n (prepare_slot env size count (get_or sys.streams n gone));
})
step major (closes n) sys = put_slot sys n (close_slot major sys.device (get_or sys.streams n gone))
step major (destroys n) sys =
    put_slot sys n (destroy_slot major sys.device (get_or sys.streams n gone))
step major (closes_device status) sys =
    some (record sys { device = (do_close sys.device status).0 })

unfoldable pub run : ℕ → List Event → System → Option System
run major [] sys = some sys
run major (e ∷ es) sys = elim (step major e sys) [ none ↦ none | some sys' ↦ run major es sys' ]
