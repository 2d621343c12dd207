-- ===== src/AudioHal/Balance.antt =====
-- The count of opened streams of audio/hal/Device.cpp against the streams that there are.
use device_phh_treble_doze.Base.{
  ℕ, zero, suc, ◌+◌, ◌≤◌, ◌≡◌, refl, arith, Bool, true, false, ◌&&◌, List, [], ◌∷◌, ◌++◌, Option,
  none, some, leb, get_or, set, if◌then◌else◌,
}
use device_phh_treble_doze.AudioHal.Device.{
  Device, open_output_stream, open_input_stream, open_output_stream_core, open_input_stream_core,
  do_close, close_output_stream, close_input_stream,
}
use device_phh_treble_doze.AudioHal.Out as Out
use device_phh_treble_doze.AudioHal.Out.{StreamOut, new_stream_out, PrepareEnv, prepare_for_writing}
use device_phh_treble_doze.AudioHal.In as In
use device_phh_treble_doze.AudioHal.In.{StreamIn, new_stream_in, prepare_for_reading}
use device_phh_treble_doze.AudioHal.System.{
  Slot, output, input, gone, System, new_system, Event, opens_output, opens_input, prepares, closes,
  destroys, closes_device, added, prepare_slot, close_slot, destroy_slot, put_slot, step, run,
}

-- A stream is open in the device until it is closed, and before version 6 until it is destroyed.
abbrev pub open_in_device : ℕ → Slot → ℕ
open_in_device major (output out) = if leb 6 major && out.stop_write_thread then 0 else 1
open_in_device major (input sin) = if leb 6 major && sin.stop_read_thread then 0 else 1
open_in_device major gone = 0

abbrev pub open_count : ℕ → List Slot → ℕ
open_count major [] = 0
open_count major (s ∷ ss) = open_in_device major s + open_count major ss

open_count-append :
    (major : ℕ) (ss ts : List Slot)
    → open_count major (ss ++ ts) ≡ open_count major ss + open_count major ts
open_count-append major [] ts = omega arith
open_count-append major (s ∷ ss) ts = omega (arith, open_count-append major ss ts)

-- What one slot is replaced by, the count follows; nothing is there beyond the end.
open_count-set :
    (major : ℕ) (ss : List Slot) (n : ℕ) (s : Slot)
    → open_in_device major s ≤ open_in_device major (get_or ss n gone)
    → open_count major (set ss n s) + open_in_device major (get_or ss n gone)
      ≡ open_count major ss + open_in_device major s
open_count-set major [] n s h = omega (arith, h)
open_count-set major (t ∷ ss) zero s h = omega arith
open_count-set major (t ∷ ss) (suc n) s h = omega (arith, open_count-set major ss n s h)

open_count-get_or :
    (major : ℕ) (ss : List Slot) (n : ℕ)
    → open_in_device major (get_or ss n gone) ≤ open_count major ss
open_count-get_or major [] n = omega arith
open_count-get_or major (t ∷ ss) zero = omega arith
open_count-get_or major (t ∷ ss) (suc n) = omega (arith, open_count-get_or major ss n)

-- A call on a slot takes from the count of the device what it takes from the slot.
abbrev Follows : ℕ → Device → Slot → Option (Device × Slot) → Type 0
Follows major d s none = ⊥
Follows major d s (some (d', s')) =
    (open_in_device major s' ≤ open_in_device major s)
    × (d'.opened_streams_count + open_in_device major s
        ≡ d.opened_streams_count + open_in_device major s')

close_slot-Follows :
    (major : ℕ) (d : Device) (s : Slot)
    → open_in_device major s ≤ d.opened_streams_count
    → Follows major d s (close_slot major d s)
unfolding Out.close In.close close_output_stream close_input_stream
close_slot-Follows major d (output out) h = ground arith
close_slot-Follows major d (input sin) h = ground arith
close_slot-Follows major d gone h = ground arith

destroy_slot-Follows :
    (major : ℕ) (d : Device) (s : Slot)
    → open_in_device major s ≤ d.opened_streams_count
    → Follows major d s (destroy_slot major d s)
unfolding Out.destroy In.destroy Out.close In.close close_output_stream close_input_stream
destroy_slot-Follows major d (output out) h = ground arith
destroy_slot-Follows major d (input sin) h = ground arith
destroy_slot-Follows major d gone h = ground arith

-- The device counts the streams that are open.
abbrev pub IsBalanced : ℕ → System → Type 0
IsBalanced major sys = sys.device.opened_streams_count ≡ open_count major sys.streams

abbrev StaysBalanced : ℕ → Option System → Type 0
StaysBalanced major none = ⊥
StaysBalanced major (some sys) = IsBalanced major sys

added-IsBalanced :
    (major : ℕ) (sys : System) (slot : Slot) (d : Device) (opened : Bool)
    → IsBalanced major sys
    → open_in_device major slot ≡ 1
    → d.opened_streams_count ≡ sys.device.opened_streams_count + (if opened then 1 else 0)
    → IsBalanced major (added opened slot sys d)
added-IsBalanced major sys slot d true h one e =
    omega (arith, open_count-append major sys.streams (slot ∷ []))
added-IsBalanced major sys slot d false h one e = omega arith

put_slot-StaysBalanced :
    (major : ℕ) (sys : System) (n : ℕ) (o : Option (Device × Slot))
    → IsBalanced major sys
    → Follows major sys.device (get_or sys.streams n gone) o
    → StaysBalanced major (put_slot sys n o)
put_slot-StaysBalanced major sys n none h f = f
put_slot-StaysBalanced major sys n (some (d, s)) h (less, f) =
    omega (arith, open_count-set major sys.streams n s less)

prepare_slot_lem :
    (major : ℕ) (env : PrepareEnv) (size count : ℕ) (s : Slot)
    → open_in_device major (prepare_slot env size count s) ≡ open_in_device major s
unfolding prepare_for_writing prepare_for_reading
prepare_slot_lem major env size count (output out) = ground arith
prepare_slot_lem major env size count (input sin) = ground arith
prepare_slot_lem major env size count gone = refl

step-StaysBalanced :
    (major : ℕ) (e : Event) (sys : System)
    → IsBalanced major sys
    → StaysBalanced major (step major e sys)
unfolding step do_close
step-StaysBalanced major (opens_output env) sys h =
    let (d, result, opened) = open_output_stream sys.device env in
    added-IsBalanced major sys (output new_stream_out) d opened h (ground arith)
      (unfold open_output_stream open_output_stream_core in ground arith)
step-StaysBalanced major (opens_input env) sys h =
    let (d, result, opened) = open_input_stream sys.device env in
    added-IsBalanced major sys (input new_stream_in) d opened h (ground arith)
      (unfold open_input_stream open_input_stream_core in ground arith)
step-StaysBalanced major (prepares n env size count) sys h =
    let same = prepare_slot_lem major env size count (get_or sys.streams n gone) in
    omega (
      arith,
      same,
      open_count-set major sys.streams n (prepare_slot env size count (get_or sys.streams n gone))
          (omega (arith, same)),
    )
step-StaysBalanced major (closes n) sys h =
    put_slot-StaysBalanced major sys n (close_slot major sys.device (get_or sys.streams n gone)) h (
      close_slot-Follows major sys.device (get_or sys.streams n gone)
        (omega (arith, open_count-get_or major sys.streams n)))
step-StaysBalanced major (destroys n) sys h =
    put_slot-StaysBalanced major sys n (destroy_slot major sys.device (get_or sys.streams n gone)) h
      (destroy_slot-Follows major sys.device (get_or sys.streams n gone)
        (omega (arith, open_count-get_or major sys.streams n)))
step-StaysBalanced major (closes_device status) sys h = ground arith

run-StaysBalanced :
    (major : ℕ) (es : List Event) (sys : System)
    → IsBalanced major sys
    → StaysBalanced major (run major es sys)
unfolding run
run-StaysBalanced major [] sys h = h
run-StaysBalanced major (e ∷ es) sys h =
    go (step major e sys) (step-StaysBalanced major e sys h) (run-StaysBalanced major es)
  where
    go :
        (o : Option System)
        → StaysBalanced major o
        → ((sys : System) → IsBalanced major sys → StaysBalanced major (run major es sys))
        → StaysBalanced major (elim o [ none ↦ none | some sys' ↦ run major es sys' ])
    go none bad more = bad
    go (some sys') b more = more sys' b

-- For every version of the interface, whatever sequence of openings, preparations, closings (also
-- repeated ones), destructions and closings of the device follows a new device, the fatal error of
-- a count that is already 0 is not met, and the count of the device is that of the open streams.
pub streams_balance :
    (major : ℕ) (es : List Event)
    → (sys : System) × (run major es new_system ≡ some sys) × IsBalanced major sys
streams_balance major es =
    go (run major es new_system) refl (run-StaysBalanced major es new_system refl)
  where
    go :
        (o : Option System)
        → run major es new_system ≡ o
        → StaysBalanced major o
        → (sys : System) × (run major es new_system ≡ some sys) × IsBalanced major sys
    go none same bad = absurd bad
    go (some sys) same b = (sys, same, b)
