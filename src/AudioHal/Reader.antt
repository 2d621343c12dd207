-- ===== src/AudioHal/Reader.antt =====
-- The thread of an input stream in audio/hal/StreamIn.cpp, with its three message queues.
use device_phh_treble_doze.Base.{
  ℕ, ◌-◌, Bool, true, not, List, [], ◌∷◌, ◌++◌, Option, none, some, length, take, drop, ltb, leb,
  if◌then◌else◌,
}
use device_phh_treble_doze.AudioHal.Status.{
  Result, ok, not_supported, HalStatus, analyze_status, is_ok,
}

pub data ReadCommand : Type 0 where
  read get_capture_position : ReadCommand
  unknown_command : ℕ → ReadCommand

-- `read` is the number of bytes asked for.
pub record ReadParameters : Type 0 where
  pub command : ReadCommand
  pub read_size : ℕ

pub record ReadStatus : Type 0 where
  pub retval : Result
  pub reply_to : ReadCommand
  pub read_count : ℕ
  pub frames : ℕ
  pub time : ℕ

-- The bytes that the legacy stream gives for a size, or its error, and its capture position.
pub data ReadAnswer : Type 0 where
  gave : List ℕ → ReadAnswer
  failed : HalStatus → ReadAnswer

pub record HalIn : Type 0 where
  pub read_answer : ℕ → ReadAnswer
  pub position : Option (HalStatus × ℕ × ℕ)

-- `given` are the bytes that the legacy stream has given, `taken` those that the client has taken.
pub record Reader : Type 0 where
  pub stop : Bool
  pub command_mq : Option ReadParameters
  pub data_mq : List ℕ
  pub data_size : ℕ
  pub status_mq : Option ReadStatus
  pub status : ReadStatus
  pub given : List ℕ
  pub taken : List ℕ

abbrev pub available_to_write : Reader → ℕ
available_to_write r = r.data_size - length r.data_mq

-- The size that the legacy stream is asked for.
unfoldable pub requested_to_read : Reader → ℕ → ℕ
requested_to_read r size = if ltb (available_to_write r) size then available_to_write r else size

-- What follows the answer. A write to the data queue that does not fit loses the bytes.
unfoldable pub after_read : ReadAnswer → Reader → Reader
after_read (gave bytes) r = record r {
  given = r.given ++ bytes;
  data_mq = if leb (length bytes) (available_to_write r) then r.data_mq ++ bytes else r.data_mq;
  status = record r.status { retval = ok; read_count = length bytes };
}
after_read (failed st) r = record r { status = record r.status { retval = analyze_status st } }

unfoldable pub do_read : HalIn → ℕ → Reader → Reader
do_read hal size r = after_read (hal.read_answer (requested_to_read r size)) r

unfoldable pub do_get_capture_position : HalIn → Reader → Reader
do_get_capture_position hal r = elim hal.position [
  | none ↦ record r { status = record r.status { retval = not_supported } }
  | some (st, frames, time) ↦
      if is_ok (analyze_status st)
      then record r { status = record r.status { retval = ok; frames = frames; time = time } }
      else record r { status = record r.status { retval = analyze_status st } }
]

-- The switch on a command, with the size of its parameters.
unfoldable pub dispatch : HalIn → ReadCommand → ℕ → Reader → Reader
dispatch hal read size r = do_read hal size r
dispatch hal get_capture_position size r = do_get_capture_position hal r
dispatch hal (unknown_command n) size r = record r {
  status = record r.status { retval = not_supported };
}

unfoldable pub push_status : Reader → Reader
push_status r = elim r.status_mq [ none ↦ record r { status_mq = some r.status } | some st ↦ r ]

-- A round of `threadLoop`; `woken` tells whether the wait has seen NOT_FULL.
unfoldable pub read_round : HalIn → Bool → Reader → Reader
read_round hal woken r = if r.stop then r else if not woken then r else elim r.command_mq [
  | none ↦ r
  | some p ↦ push_status (
      dispatch hal p.command p.read_size
        (record r { command_mq = none; status = record r.status { reply_to = p.command } }))
]

-- A client takes a number of bytes; a read of more than there are takes none.
pub data ReaderEvent : Type 0 where
  puts_command : ReadParameters → ReaderEvent
  takes_status : ReaderEvent
  takes_data : ℕ → ReaderEvent
  serves : HalIn → Bool → ReaderEvent
  stops : ReaderEvent

unfoldable pub reader_step : ReaderEvent → Reader → Reader
reader_step (puts_command p) r = elim r.command_mq [
  | none ↦ record r { command_mq = some p }
  | some p' ↦ r
]
reader_step takes_status r = record r { status_mq = none }
reader_step (takes_data n) r =
    if leb n (length r.data_mq)
    then record r { data_mq = drop n r.data_mq; taken = r.taken ++ take n r.data_mq }
    else r
reader_step (serves hal woken) r = read_round hal woken r
reader_step stops r = record r { stop = true }

unfoldable pub reader_run : List ReaderEvent → Reader → Reader
reader_run [] r = r
reader_run (e ∷ es) r = reader_run es (reader_step e r)
