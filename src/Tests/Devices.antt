-- ===== src/Tests/Devices.antt =====
-- Examples about the audio HAL.
use device_phh_treble_doze.Base.{
  ℕ, zero, suc, ◌*◌, ◌≤◌, ◌≡◌, ◌≢◌, ◌⊎◌, refl, arith, true, false, List, [], ◌∷◌, ◌++◌, none, some,
  length,
}
use device_phh_treble_doze.AudioHal.Status.{ok, success}
use device_phh_treble_doze.AudioHal.Device.{OpenEnv}
use device_phh_treble_doze.AudioHal.Out.{
  new_stream_out, PrepareEnv, prepare_for_writing, max_buffer_size,
}
use device_phh_treble_doze.AudioHal.In.{new_stream_in, prepare_for_reading}
use device_phh_treble_doze.AudioHal.System.{
  Event, opens_output, opens_input, prepares, closes, destroys, closes_device, System, new_system,
  run,
}
use device_phh_treble_doze.AudioHal.Balance.{IsBalanced, streams_balance}
use device_phh_treble_doze.AudioHal.Writer as Writer
use device_phh_treble_doze.AudioHal.Reader as Reader
use device_phh_treble_doze.AudioHal.Threads.{
  stream_bytes, accepted, writer_run_lem, IsComplete, IsModest, reader_run_lem,
}
use device_phh_treble_doze.AudioHal.Prepared.{prepare_lem}

abbrev opening : OpenEnv
opening = record {
  config_ok = true;
  address_ok = true;
  flags_ok = true;
  source_ok = true;
  metadata = success;
  tracks = 1;
  status = success;
}

abbrev preparing : PrepareEnv
preparing = record {
  command_mq_valid = true;
  data_mq_valid = true;
  status_mq_valid = true;
  event_flag_ok = true;
  init_ok = true;
  run_ok = true;
}

-- Two streams, of which one is closed twice and destroyed.
abbrev life : List Event
life =
    opens_output opening
    ∷ opens_input opening
    ∷ prepares 0 preparing 4 100
    ∷ closes 0
    ∷ closes 0
    ∷ destroys 0
    ∷ closes_device success
    ∷ []

streams_balance_example : (sys : System) × (run 6 life new_system ≡ some sys) × IsBalanced 6 sys
streams_balance_example = streams_balance 6 life

prepare_lem_example :
    (let (out', result) = prepare_for_writing new_stream_out preparing 4 100 in
      ((result ≡ ok)
        × (new_stream_out.data_mq ≡ none)
        × (out'.data_mq ≡ some (4 * 100))
        × (4 * 100 ≤ max_buffer_size))
      ⊎ ((result ≢ ok) × (out' ≡ new_stream_out)))
    × (let (sin', result) = prepare_for_reading new_stream_in preparing 4 100 in
        ((result ≡ ok)
          × (new_stream_in.data_mq ≡ none)
          × (sin'.data_mq ≡ some (4 * 100))
          × (4 * 100 ≤ max_buffer_size))
        ⊎ ((result ≢ ok) × (sin' ≡ new_stream_in)))
prepare_lem_example = prepare_lem new_stream_out new_stream_in preparing 4 100

abbrev hal_out : Writer.HalOut
hal_out = record {
  write_answer = λ bytes. Writer.wrote (length bytes);
  position = none;
  latency = 20;
}

abbrev new_writer : Writer.Writer
new_writer = record {
  stop = false;
  command_mq = none;
  data_mq = [];
  data_size = 3;
  status_mq = none;
  status = record {
    retval = ok;
    reply_to = Writer.write;
    written = 0;
    frames = 0;
    time_stamp = 0;
    latency_ms = 0;
  };
  handed = [];
}

abbrev writer_events : List Writer.WriterEvent
writer_events =
    Writer.puts_data (1 ∷ 2 ∷ [])
    ∷ Writer.puts_data (8 ∷ 9 ∷ [])
    ∷ Writer.puts_command Writer.write
    ∷ Writer.serves hal_out true
    ∷ Writer.puts_data (3 ∷ [])
    ∷ Writer.stops
    ∷ Writer.serves hal_out true
    ∷ []

writer_run_lem_example :
    stream_bytes (Writer.writer_run writer_events new_writer)
    ≡ stream_bytes new_writer ++ accepted writer_events new_writer
writer_run_lem_example = writer_run_lem writer_events new_writer

-- It gives nothing for 0 bytes, and one byte otherwise.
abbrev one_byte : ℕ → Reader.ReadAnswer
one_byte zero = Reader.gave []
one_byte (suc n) = Reader.gave (5 ∷ [])

abbrev hal_in : Reader.HalIn
hal_in = record { read_answer = one_byte; position = none }

hal_in-IsModest : IsModest hal_in
hal_in-IsModest zero bytes h = ground arith
hal_in-IsModest (suc n) bytes h = ground arith

abbrev new_reader : Reader.Reader
new_reader = record {
  stop = false;
  command_mq = none;
  data_mq = [];
  data_size = 3;
  status_mq = none;
  status = record { retval = ok; reply_to = Reader.read; read_count = 0; frames = 0; time = 0 };
  given = [];
  taken = [];
}

abbrev reader_events : List Reader.ReaderEvent
reader_events =
    Reader.puts_command (record { command = Reader.read; read_size = 2 })
    ∷ Reader.serves hal_in true
    ∷ Reader.takes_data 1
    ∷ []

reader_run_lem_example : IsComplete (Reader.reader_run reader_events new_reader)
reader_run_lem_example =
    reader_run_lem reader_events new_reader (tt, (hal_in-IsModest, (tt, tt))) (refl, omega arith)
