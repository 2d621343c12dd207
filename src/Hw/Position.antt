-- ===== src/Hw/Position.antt =====
-- The delays and positions of bluetooth/audio/hw/stream_apis.cc: `out_calculate_feeding_delay_ms`,
-- `in_calculate_starving_delay_ms` and the calls that report them.
use device_phh_treble_doze.Base.{
  ℕ, ◌+◌, ◌-◌, ◌*◌, ◌/◌, Bool, false, not, ◌&&◌, ltb, leb, if◌then◌else◌,
}
use device_phh_treble_doze.Codecs.Software.{PcmConfiguration}
use device_phh_treble_doze.Session.Types.{SessionType, Session}
use device_phh_treble_doze.Session.State
use device_phh_treble_doze.Hw.Types.{ChannelMask, AudioFormat, Port, u64, u32}
use device_phh_treble_doze.Hw.Port.{in_use}
use device_phh_treble_doze.Hw.Out.{StreamOut, out_frame_size}

-- What the stack reports, and what a position call gives. The timestamps are in nanoseconds.
pub record PresentationPosition : Type 0 where
  pub delay_ns : ℕ
  pub transmitted_octets : ℕ
  pub timestamp_ns : ℕ

abbrev pub no_position : PresentationPosition
no_position = record { delay_ns = 0; transmitted_octets = 0; timestamp_ns = 0 }

-- What a position call meets: the session, whether the stack answers (`isOk()`) and with what, and
-- the monotonic clock.
pub record PositionEnv : Type 0 where
  pub session : Session
  pub answer : Bool
  pub reported : PresentationPosition
  pub clock_ns : ℕ

pub record Feeding : Type 0 where
  pub latency_ms : ℕ
  pub frames : ℕ
  pub timestamp_ns : ℕ

abbrev pub k_minimum_delay_ms : ℕ
k_minimum_delay_ms = 50

abbrev pub k_maximum_delay_ms : ℕ
k_maximum_delay_ms = 1000

abbrev pub k_extra_audio_sync_ms : ℕ
k_extra_audio_sync_ms = 200

-- From the frames presented, the frames that the stack has taken, and those in the remote buffer.
unfoldable pub position_of : ℕ → ℕ → ℕ → ℕ
position_of presented taken latency_frames =
    let frames =
      if ltb presented taken
      then presented
      else if ltb latency_frames (presented - taken)
      then presented
      else taken in
    if ltb latency_frames frames then frames - latency_frames else 0

module _ (code : SessionType → ℕ) where
  -- The session tells whether it has asked the stack, and what its own result is.
  unfoldable pub get_presentation_position : Port → PositionEnv → Bool × PresentationPosition
  get_presentation_position p env =
      if not (in_use code p)
      then (false, no_position)
      else let (asked, retval) = State.get_presentation_position env.session env.answer in
        (retval, if asked then env.reported else no_position)

  unfoldable pub is_fetched : Bool → ℕ → Bool
  is_fetched retval ms = retval && (ltb k_minimum_delay_ms ms && ltb ms k_maximum_delay_ms)

  -- The delay of the stream's own buffer, with the extra one.
  unfoldable pub legacy_delay_ms : StreamOut → ℕ
  legacy_delay_ms out =
      u64 (u64 (out.frames_count * 1000) / out.sample_rate + k_extra_audio_sync_ms)

  module _ (pcm_of : ℕ → PcmConfiguration) (frame_size : ChannelMask → AudioFormat → ℕ) where
    unfoldable pub out_calculate_feeding_delay_ms : StreamOut → PositionEnv → Feeding
    out_calculate_feeding_delay_ms out env =
        let (retval, position) = get_presentation_position out.port env in
        let fetched = is_fetched retval (position.delay_ns / 1000000) in
        let delay_ms = if fetched then position.delay_ns / 1000000 else legacy_delay_ms out in
        record {
          latency_ms = u32 delay_ms;
          frames =
              position_of out.frames_presented
                (position.transmitted_octets
                  / out_frame_size code pcm_of frame_size out env.session)
                (u64 (delay_ms * out.sample_rate) / 1000);
          timestamp_ns = if fetched then position.timestamp_ns else env.clock_ns;
        }

    unfoldable pub out_get_latency_ms : StreamOut → PositionEnv → ℕ
    out_get_latency_ms out env = (out_calculate_feeding_delay_ms out env).latency_ms

    unfoldable pub out_get_render_position : StreamOut → PositionEnv → ℕ
    out_get_render_position out env =
        let latency_frames = u64 (out_get_latency_ms out env * out.sample_rate) / 1000 in
        if leb latency_frames out.frames_rendered
        then u32 (out.frames_rendered - latency_frames)
        else 0

    unfoldable pub out_get_presentation_position : StreamOut → PositionEnv → ℕ × ℕ
    out_get_presentation_position out env =
        let feeding = out_calculate_feeding_delay_ms out env in
        (feeding.frames, feeding.timestamp_ns)
