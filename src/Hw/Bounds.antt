-- ===== src/Hw/Bounds.antt =====
-- What the positions and delays of an output stream can be.
use device_phh_treble_doze.Base.{ℕ, ◌-◌, ◌*◌, ◌/◌, ◌≤◌, ◌≡◌, refl, false, arith}
use device_phh_treble_doze.Codecs.Software.{PcmConfiguration}
use device_phh_treble_doze.Session.Types.{SessionType}
use device_phh_treble_doze.Session.State
use device_phh_treble_doze.Hw.Types.{ChannelMask, AudioFormat, Port, u64, u32}
use device_phh_treble_doze.Hw.Out.{StreamOut, out_frame_size}
use device_phh_treble_doze.Hw.Position.{
  PositionEnv, position_of, get_presentation_position, is_fetched, legacy_delay_ms,
  out_calculate_feeding_delay_ms, out_get_latency_ms, out_get_render_position,
  out_get_presentation_position,
}

position_of-le :
    (presented taken latency_frames : ℕ)
    → position_of presented taken latency_frames ≤ presented - latency_frames
unfolding position_of
position_of-le presented taken latency_frames = ground arith

-- While the frames presented are ahead of those that the stack has taken by at most the frames of
-- the latency, the position is what the stack has taken less these frames.
position_of-taken :
    (presented taken latency_frames : ℕ)
    → taken ≤ presented
    → presented - taken ≤ latency_frames
    → position_of presented taken latency_frames ≡ taken - latency_frames
unfolding position_of
position_of-taken presented taken latency_frames le near = ground arith

module _ (code : SessionType → ℕ) (pcm_of : ℕ → PcmConfiguration) where
  never_fetched : (p : Port) (env : PositionEnv) → (get_presentation_position code p env).0 ≡ false
  unfolding get_presentation_position State.get_presentation_position
  never_fetched p env = ground arith

  unfetched_lem : (ms : ℕ) → is_fetched code false ms ≡ false
  unfolding is_fetched
  unfetched_lem ms = refl

  module _ (frame_size : ChannelMask → AudioFormat → ℕ) where
    -- Whatever the stack reports, the latency of an output stream is that of its own buffer with 200 ms
    -- added, and the timestamp of a position is the time of the call: the session's
    -- `GetPresentationPosition` returns false also when the stack has answered.
    pub out_latency_lem :
        (out : StreamOut) (env : PositionEnv)
        → (out_get_latency_ms code pcm_of frame_size out env ≡ u32 (legacy_delay_ms code out))
          × ((out_get_presentation_position code pcm_of frame_size out env).1 ≡ env.clock_ns)
    unfolding out_get_latency_ms out_get_presentation_position out_calculate_feeding_delay_ms
    out_latency_lem out env = ground (
      arith,
      never_fetched out.port env,
      unfetched_lem ((get_presentation_position code out.port env).1.delay_ns / 1000000),
    )

    -- For any output stream and whatever the stack reports, the presentation position is at most the
    -- counter `frames_presented` less the frames of the latency, and the render position at most the
    -- counter `frames_rendered` less these frames; where a counter is below the latency, the position
    -- is 0. What the counters have counted is not part of the claim.
    pub out_position_bounds :
        (out : StreamOut) (env : PositionEnv)
        → ((out_get_presentation_position code pcm_of frame_size out env).0
            ≤ out.frames_presented - u64 (legacy_delay_ms code out * out.sample_rate) / 1000)
          × (out_get_render_position code pcm_of frame_size out env
              ≤ out.frames_rendered - u64 (u32 (legacy_delay_ms code out) * out.sample_rate) / 1000)
    unfolding out_get_presentation_position out_get_render_position out_calculate_feeding_delay_ms
    out_position_bounds out env = ground (
      arith,
      out_latency_lem out env,
      never_fetched out.port env,
      unfetched_lem ((get_presentation_position code out.port env).1.delay_ns / 1000000),
      position_of-le out.frames_presented
          ((get_presentation_position code out.port env).1.transmitted_octets
            / out_frame_size code pcm_of frame_size out env.session)
          (u64 (legacy_delay_ms code out * out.sample_rate) / 1000),
    )
