-- ===== src/Tests/Streams.antt =====
-- Examples about the output streams of the legacy audio HAL.
use device_phh_treble_doze.Base.{
  ◌+◌, ◌-◌, ◌*◌, ◌/◌, ◌≤◌, ◌<◌, ◌≡◌, ◌≢◌, refl, true, false, ◌&&◌, List, [], ◌∷◌, ◌++◌, some, arith,
}
use device_phh_treble_doze.Session.Types.{a2dp_software_encoding}
use device_phh_treble_doze.Session.State.{is_session_ready}
use device_phh_treble_doze.Session.Cookies.{cookie_undefined}
use device_phh_treble_doze.Hw.Types.{disabled, standby, starting, started, state_eqb, u64, u32}
use device_phh_treble_doze.Hw.Port.{in_use, concat}
use device_phh_treble_doze.Hw.Life
use device_phh_treble_doze.Hw.Life.{has_switch_on, has_success}
use device_phh_treble_doze.Hw.Refine.{phase_of, inputs_of}
use device_phh_treble_doze.Hw.Out.{
  StreamOut, eio, ebusy, Written, out_standby, out_pause, out_resume, out_write, out_frame_size,
}
use device_phh_treble_doze.Hw.Params.{
  parse_audio_params, parse_segments, add_segment, insert, lookup,
}
use device_phh_treble_doze.Hw.Runs.{
  Call, resumes, standbys, sets_parameters, run, all_inputs, stream_refines, closed_stream_drops,
  plays_after_success,
}
use device_phh_treble_doze.Hw.Calls.{failed_start_blocks}
use device_phh_treble_doze.Hw.Position.{
  PositionEnv, legacy_delay_ms, position_of, out_get_render_position, out_get_presentation_position,
}
use device_phh_treble_doze.Hw.Bounds.{out_position_bounds}
use device_phh_treble_doze.Hw.Writes.{stream_write_all}
use device_phh_treble_doze.Tests.Setup.{
  code, pcm_of, frame_size, downmix, platform, session, succeeds, silent, port, out, closed,
  write_env, calls,
}

port_in_use : in_use code port ≡ true
unfolding in_use cookie_undefined
port_in_use = refl

stream_refines_example :
    (after : StreamOut) × (run platform out calls ≡ some after)
    × (phase_of after.port.state
        ≡ Life.run (phase_of standby) (all_inputs platform 256 a2dp_software_encoding calls))
stream_refines_example = stream_refines platform out calls port_in_use

-- The run ends switched off.
calls_end :
    Life.run (phase_of standby) (all_inputs platform 256 a2dp_software_encoding calls) ≡ Life.off
unfolding Life.run Life.next all_inputs inputs_of concat parse_audio_params parse_segments
    add_segment insert lookup
calls_end = refl

closed_in_use : in_use code closed.port ≡ true
unfolding in_use cookie_undefined
closed_in_use = refl

abbrev closed_calls : List Call
closed_calls = resumes succeeds ∷ sets_parameters silent "closing=true" ∷ []

no_switch_on : has_switch_on (all_inputs platform 256 a2dp_software_encoding closed_calls) ≡ false
unfolding has_switch_on all_inputs inputs_of concat parse_audio_params parse_segments add_segment
    insert lookup
no_switch_on = refl

closed_stream_drops_example :
    (after : StreamOut) × (run platform closed closed_calls ≡ some after)
    × (after.port.state ≡ disabled)
    × (out_write code pcm_of frame_size downmix after write_env (1 ∷ []) 1
        ≡ some (record {
          stream = after;
          total = 1;
          slept = after.preferred_data_interval_us;
          rest = succeeds.during ++ concat succeeds.wakes;
        }))
closed_stream_drops_example =
    closed_stream_drops platform closed closed_calls write_env (1 ∷ []) 1 closed_in_use refl
      no_switch_on

abbrev silent_calls : List Call
silent_calls = resumes silent ∷ standbys silent ∷ []

no_success : has_success (all_inputs platform 256 a2dp_software_encoding silent_calls) ≡ false
unfolding has_success all_inputs inputs_of concat
no_success = refl

standby_ne_started : standby ≢ started
standby_ne_started e = ground arith

plays_after_success_example :
    (after : StreamOut) × (run platform out silent_calls ≡ some after)
    × (state_eqb after.port.state started ≡ false)
plays_after_success_example =
    plays_after_success platform out silent_calls port_in_use standby_ne_started no_success

session_ready : is_session_ready session ≡ true
unfolding is_session_ready
session_ready = refl

session_refused : (is_session_ready session && false) ≡ false
unfolding is_session_ready
session_refused = refl

failed_start_blocks_example :
    let (after, retval, rest) = out_resume code out silent in
    (retval ≡ eio)
    × (after.port.state ≡ starting)
    × ((out_standby code after succeeds).1 ≡ ebusy)
    × ((out_pause code after succeeds).1 ≡ ebusy)
    × ((out_resume code after succeeds).1 ≡ ebusy)
failed_start_blocks_example =
    failed_start_blocks code out silent succeeds port_in_use refl session_refused refl

abbrev position_env : PositionEnv
position_env = record {
  session = session;
  answer = true;
  reported = record { delay_ns = 120000000; transmitted_octets = 340000; timestamp_ns = 5 };
  clock_ns = 77;
}

-- 220 ms for 882 frames at 44100 Hz, although the stack reports 120 ms.
latency_value : legacy_delay_ms code out ≡ 220
unfolding legacy_delay_ms
latency_value = refl

out_position_bounds_example :
    ((out_get_presentation_position code pcm_of frame_size out position_env).0
      ≤ 90000 - u64 (legacy_delay_ms code out * 44100) / 1000)
    × (out_get_render_position code pcm_of frame_size out position_env
        ≤ 50000 - u64 (u32 (legacy_delay_ms code out) * 44100) / 1000)
out_position_bounds_example = out_position_bounds code pcm_of frame_size out position_env

-- The position goes back when the stack's count catches up with the frames presented.
position_goes_back : (position_of 1000 100 500 ≡ 500) × (position_of 1000 600 500 ≡ 100)
unfolding position_of
position_goes_back = (refl, refl)

abbrev playing_out : StreamOut
playing_out = record out { port = record port { state = started } }

playing_in_use : in_use code playing_out.port ≡ true
unfolding in_use cookie_undefined
playing_in_use = refl

four_le : 0 < 4
four_le = omega arith

stream_write_all_example :
    (w : Written) × (out_write code pcm_of frame_size downmix playing_out write_env
        (1 ∷ 2 ∷ 3 ∷ 4 ∷ [])
        4
      ≡ some w)
    × (w.total ≡ 4)
    × (w.slept ≡ 0)
    × (w.stream.frames_presented
        ≡ u64 (90000 + 4 / out_frame_size code pcm_of frame_size playing_out session))
    × (w.stream.frames_rendered
        ≡ u64 (50000 + 4 / out_frame_size code pcm_of frame_size playing_out session))
    × (w.stream.last_write_time_us ≡ 1000)
stream_write_all_example =
    stream_write_all code pcm_of frame_size downmix playing_out write_env (1 ∷ 2 ∷ 3 ∷ 4 ∷ []) 4
      refl playing_in_use refl (λ n. (refl, omega arith, refl)) four_le
