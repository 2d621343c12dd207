-- ===== src/AudioHal/Writer.antt =====
-- The thread of an output stream in audio/hal/StreamOut.cpp, with its three message queues. A client
-- puts bytes and a command into the queues, the thread serves them, the client takes the status.
use device_phh_treble_doze.Base.{
  ℕ, ◌+◌, Bool, true, not, List, [], ◌∷◌, ◌++◌, Option, none, some, length, leb, if◌then◌else◌,
}
use device_phh_treble_doze.AudioHal.Status.{
  Result, ok, not_supported, HalStatus, analyze_status, is_ok,
}

pub data WriteCommand : Type 0 where
  write get_presentation_position get_latency : WriteCommand
  unknown_command : ℕ → WriteCommand

-- The members of the union of replies are kept apart: a client reads the one of its command.
pub record WriteStatus : Type 0 where
  pub retval : Result
  pub reply_to : WriteCommand
  pub written : ℕ
  pub frames : ℕ
  pub time_stamp : ℕ
  pub latency_ms : ℕ

-- What the legacy stream answers: the number of bytes of `write` or its error, the frames, the time
-- and the status of `get_presentation_position` when there is one, and the latency.
pub data WriteAnswer : Type 0 where
  wrote : ℕ → WriteAnswer
  failed : HalStatus → WriteAnswer

pub record HalOut : Type 0 where
  pub write_answer : List ℕ → WriteAnswer
  pub position : Option (HalStatus × ℕ × ℕ)
  pub latency : ℕ

-- The queues and the thread. `data_size` is the capacity of the data queue; `handed` are the bytes
-- given to the legacy stream, and `status` is the thread's own, which it fills in place.
pub record Writer : Type 0 where
  pub stop : Bool
  pub command_mq : Option WriteCommand
  pub data_mq : List ℕ
  pub data_size : ℕ
  pub status_mq : Option WriteStatus
  pub status : WriteStatus
  pub handed : List ℕ

unfoldable pub do_write : HalOut → Writer → Writer
do_write hal w =
    let taken : Writer = record w { data_mq = []; handed = w.handed ++ w.data_mq } in
    elim (hal.write_answer w.data_mq) [
      | wrote n ↦ record taken { status = record w.status { retval = ok; written = n } }
      | failed st ↦ record taken {
        status = record w.status { retval = analyze_status st; written = 0 };
      }
    ]

-- `getPresentationPositionImpl`, into the thread's status.
unfoldable pub do_get_presentation_position : HalOut → Writer → Writer
do_get_presentation_position hal w = elim hal.position [
  | none ↦ record w { status = record w.status { retval = not_supported } }
  | some (st, frames, time) ↦ record w {
    status = record w.status {
      retval = analyze_status st;
      frames = frames;
      time_stamp = if is_ok (analyze_status st) then time else w.status.time_stamp;
    };
  }
]

unfoldable pub do_get_latency : HalOut → Writer → Writer
do_get_latency hal w = record w {
  status = record w.status { retval = ok; latency_ms = hal.latency };
}

unfoldable pub dispatch : HalOut → WriteCommand → Writer → Writer
dispatch hal write w = do_write hal w
dispatch hal get_presentation_position w = do_get_presentation_position hal w
dispatch hal get_latency w = do_get_latency hal w
dispatch hal (unknown_command n) w = record w {
  status = record w.status { retval = not_supported };
}

-- A status that finds the queue full is lost.
unfoldable pub push_status : Writer → Writer
push_status w = elim w.status_mq [ none ↦ record w { status_mq = some w.status } | some st ↦ w ]

-- A round of `threadLoop`; `woken` tells whether the wait has seen NOT_EMPTY.
unfoldable pub write_round : HalOut → Bool → Writer → Writer
write_round hal woken w = if w.stop then w else if not woken then w else elim w.command_mq [
  | none ↦ w
  | some command ↦ push_status (
      dispatch hal command
        (record w { command_mq = none; status = record w.status { reply_to = command } }))
]

-- What can happen: a client puts bytes, puts a command or takes a status, the thread makes a round,
-- and the stream is closed. A put that does not fit changes nothing.
pub data WriterEvent : Type 0 where
  puts_data : List ℕ → WriterEvent
  puts_command : WriteCommand → WriterEvent
  takes_status : WriterEvent
  serves : HalOut → Bool → WriterEvent
  stops : WriterEvent

abbrev pub accepts_data : Writer → List ℕ → Bool
accepts_data w bytes = leb (length w.data_mq + length bytes) w.data_size

unfoldable pub writer_step : WriterEvent → Writer → Writer
writer_step (puts_data bytes) w =
    if accepts_data w bytes then record w { data_mq = w.data_mq ++ bytes } else w
writer_step (puts_command c) w = elim w.command_mq [
  | none ↦ record w { command_mq = some c }
  | some c' ↦ w
]
writer_step takes_status w = record w { status_mq = none }
writer_step (serves hal woken) w = write_round hal woken w
writer_step stops w = record w { stop = true }

unfoldable pub writer_run : List WriterEvent → Writer → Writer
writer_run [] w = w
writer_run (e ∷ es) w = writer_run es (writer_step e w)
