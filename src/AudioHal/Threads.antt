-- ===== src/AudioHal/Threads.antt =====
-- What passes through the threads of audio/hal: no byte is lost, doubled or put before another.
use device_phh_treble_doze.Base.{
  ℕ, ◌≤◌, ◌≡◌, refl, ap, sym, ◌∙◌, arith, Bool, List, [], ◌∷◌, ◌++◌, none, length, if◌then◌else◌,
  All, append_assoc, append-nil, length-append, length-drop, take, drop, take-drop,
}
use device_phh_treble_doze.AudioHal.Writer as Writer
use device_phh_treble_doze.AudioHal.Writer.{
  WriteCommand, write, get_presentation_position, get_latency, HalOut, Writer, do_write,
  do_get_presentation_position, do_get_latency, write_round, WriterEvent, puts_data, accepts_data,
  writer_step, writer_run,
}
use device_phh_treble_doze.AudioHal.Reader as Reader
use device_phh_treble_doze.AudioHal.Reader.{
  ReadCommand, ReadParameters, gave, failed, ReadAnswer, HalIn, Reader, available_to_write,
  requested_to_read, after_read, do_read, do_get_capture_position, read_round, ReaderEvent,
  reader_step, reader_run,
}

-- The bytes that the data queue takes in a step and in a run.
abbrev pub accepted_by : WriterEvent → Writer → List ℕ
accepted_by (puts_data bytes) w = if accepts_data w bytes then bytes else []
accepted_by e w = []

abbrev pub accepted : List WriterEvent → Writer → List ℕ
accepted [] w = []
accepted (e ∷ es) w = accepted_by e w ++ accepted es (writer_step e w)

-- What the legacy stream has and what it will get.
abbrev pub stream_bytes : Writer → List ℕ
stream_bytes w = w.handed ++ w.data_mq

dispatch-stream_bytes :
    (hal : HalOut) (c : WriteCommand) (w : Writer)
    → stream_bytes (Writer.dispatch hal c w) ≡ stream_bytes w
unfolding Writer.dispatch do_write do_get_presentation_position do_get_latency
dispatch-stream_bytes hal write w = ground (arith, append-nil (w.handed ++ w.data_mq))
dispatch-stream_bytes hal get_presentation_position w = ground arith
dispatch-stream_bytes hal get_latency w = ground arith
dispatch-stream_bytes hal (Writer.unknown_command n) w = refl

round-stream_bytes :
    (hal : HalOut) (woken : Bool) (w : Writer)
    → stream_bytes (write_round hal woken w) ≡ stream_bytes w
unfolding write_round Writer.push_status
round-stream_bytes hal woken w = grind (arith, dispatch-stream_bytes)

step-stream_bytes :
    (e : WriterEvent) (w : Writer)
    → stream_bytes (writer_step e w) ≡ stream_bytes w ++ accepted_by e w
unfolding writer_step
step-stream_bytes (puts_data bytes) w =
    ground (arith, append_assoc w.handed w.data_mq bytes, append-nil (stream_bytes w))
step-stream_bytes (Writer.puts_command c) w = ground (arith, append-nil (stream_bytes w))
step-stream_bytes Writer.takes_status w = sym (append-nil (stream_bytes w))
step-stream_bytes (Writer.serves hal woken) w =
    round-stream_bytes hal woken w ∙ sym (append-nil (stream_bytes w))
step-stream_bytes Writer.stops w = sym (append-nil (stream_bytes w))

-- Whatever a client does, whatever the legacy stream answers and whenever the thread runs or is
-- stopped, the bytes handed to the legacy stream, with those that are still in the data queue after
-- them, are the bytes that the queue took from the client, in their order.
pub writer_run_lem :
    (es : List WriterEvent) (w : Writer)
    → stream_bytes (writer_run es w) ≡ stream_bytes w ++ accepted es w
unfolding writer_run
writer_run_lem [] w = sym (append-nil (stream_bytes w))
writer_run_lem (e ∷ es) w =
    writer_run_lem es (writer_step e w)
    ∙ ap (λ b. b ++ accepted es (writer_step e w)) (step-stream_bytes e w)
    ∙ append_assoc (stream_bytes w) (accepted_by e w) (accepted es (writer_step e w))

-- A legacy stream that gives at most what it is asked for.
abbrev pub IsModest : HalIn → Type 0
IsModest hal = (n : ℕ) (bytes : List ℕ) → hal.read_answer n ≡ gave bytes → length bytes ≤ n

abbrev pub AllModest : ReaderEvent → Type 0
AllModest (Reader.serves hal woken) = IsModest hal
AllModest e = Unit

-- The queue keeps to its size, and nothing that was given is missing.
abbrev pub IsComplete : Reader → Type 0
IsComplete r = (r.taken ++ r.data_mq ≡ r.given) × (length r.data_mq ≤ r.data_size)

abbrev Fits : ℕ → ReadAnswer → Type 0
Fits n (gave bytes) = length bytes ≤ n
Fits n (failed st) = Unit

modest-Fits : (hal : HalIn) (n : ℕ) → IsModest hal → Fits n (hal.read_answer n)
modest-Fits hal n modest = go (hal.read_answer n) (modest n)
  where
    go : (a : ReadAnswer) → ((bytes : List ℕ) → a ≡ gave bytes → length bytes ≤ n) → Fits n a
    go (gave bytes) h = h bytes refl
    go (failed st) h = tt

after_read-IsComplete :
    (a : ReadAnswer) (r : Reader)
    → Fits (available_to_write r) a
    → IsComplete r
    → IsComplete (after_read a r)
unfolding after_read
after_read-IsComplete (gave bytes) r fits (whole, size) =
    ground (arith, whole, append_assoc r.taken r.data_mq bytes, length-append r.data_mq bytes)
after_read-IsComplete (failed st) r fits h = h

Fits-le : (n m : ℕ) (a : ReadAnswer) → n ≤ m → Fits n a → Fits m a
Fits-le n m (gave bytes) h f = omega arith
Fits-le n m (failed st) h f = tt

requested_to_read_le : (r : Reader) (size : ℕ) → requested_to_read r size ≤ available_to_write r
unfolding requested_to_read
requested_to_read_le r size = ground arith

dispatch-IsComplete :
    (hal : HalIn) (c : ReadCommand) (size : ℕ) (r : Reader)
    → IsModest hal
    → IsComplete r
    → IsComplete (Reader.dispatch hal c size r)
unfolding Reader.dispatch do_read do_get_capture_position
dispatch-IsComplete hal Reader.read size r modest h =
    let n = requested_to_read r size in
    let answer = hal.read_answer n in
    after_read-IsComplete answer r
      (Fits-le n (available_to_write r) answer (requested_to_read_le r size)
        (modest-Fits hal n modest))
      h
dispatch-IsComplete hal Reader.get_capture_position size r modest h = ground arith
dispatch-IsComplete hal (Reader.unknown_command n) size r modest h = h

push_status-IsComplete : (r : Reader) → IsComplete r → IsComplete (Reader.push_status r)
unfolding Reader.push_status
push_status-IsComplete r h = ground arith

serve_lem :
    (hal : HalIn) (p : ReadParameters) (r : Reader)
    → IsModest hal
    → IsComplete r
    → IsComplete (
        Reader.push_status (
          Reader.dispatch hal p.command p.read_size
            (record r { command_mq = none; status = record r.status { reply_to = p.command } })))
serve_lem hal p r modest h =
    let q : Reader = record r {
      command_mq = none;
      status = record r.status { reply_to = p.command };
    } in
    push_status-IsComplete (Reader.dispatch hal p.command p.read_size q)
      (dispatch-IsComplete hal p.command p.read_size q modest h)

taken-IsComplete :
    (n : ℕ) (r : Reader)
    → IsComplete r
    → IsComplete (record r { data_mq = drop n r.data_mq; taken = r.taken ++ take n r.data_mq })
taken-IsComplete n r (whole, size) = (
  append_assoc r.taken (take n r.data_mq) (drop n r.data_mq)
      ∙ ap (r.taken ++◌) (take-drop n r.data_mq)
      ∙ whole,
  omega (arith, length-drop n r.data_mq),
)

reader_step-IsComplete :
    (e : ReaderEvent) (r : Reader) → AllModest e → IsComplete r → IsComplete (reader_step e r)
unfolding reader_step read_round
reader_step-IsComplete (Reader.puts_command p) r m h = ground arith
reader_step-IsComplete Reader.takes_status r m h = h
reader_step-IsComplete (Reader.takes_data n) r m h = ground (arith, taken-IsComplete n r h)
reader_step-IsComplete (Reader.serves hal woken) r m h = grind (arith, serve_lem)
reader_step-IsComplete Reader.stops r m h = h

-- When the legacy stream gives at most what it is asked for, the bytes that a client has taken, with
-- those in the data queue after them, are all that the legacy stream has given, in order, and the
-- queue keeps to its size, from a reader of which this holds: however a client puts commands, takes
-- statuses and takes any part of the queue, and whenever the thread runs or is stopped.
pub reader_run_lem :
    (es : List ReaderEvent) (r : Reader)
    → All AllModest es
    → IsComplete r
    → IsComplete (reader_run es r)
unfolding reader_run
reader_run_lem [] r m h = h
reader_run_lem (e ∷ es) r (m, ms) h =
    reader_run_lem es (reader_step e r) ms (reader_step-IsComplete e r m h)
