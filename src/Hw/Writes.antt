-- ===== src/Hw/Writes.antt =====
-- A write on a started port, down to the queue of the session.
use device_phh_treble_doze.Base.{ℕ, ◌+◌, ◌/◌, ◌<◌, ◌≡◌, refl, true, false, List, ◌++◌, some, arith}
use device_phh_treble_doze.Codecs.Software.{PcmConfiguration}
use device_phh_treble_doze.Session.Types.{SessionType}
use device_phh_treble_doze.Session.Pcm.Total.{Flows, out_write_all}
use device_phh_treble_doze.Hw.Types.{started, ChannelMask, AudioFormat, u64}
use device_phh_treble_doze.Hw.Port.{in_use, concat}
use device_phh_treble_doze.Hw.Out.{
  StreamOut, WriteEnv, Written, out_frame_size, write_data, after_write, out_write,
}

module _ (code : SessionType → ℕ) (pcm_of : ℕ → PcmConfiguration) where
  module _ (frame_size : ChannelMask → AudioFormat → ℕ) (downmix : List ℕ → ℕ → List ℕ) where
    write_data-all :
        (out : StreamOut) (env : WriteEnv) (buffer : List ℕ) (bytes : ℕ)
        → in_use code out.port ≡ true
        → out.port.is_stereo_to_mono ≡ false
        → Flows env.rounds
        → write_data code downmix out.port env.rounds buffer bytes ≡ some bytes
    unfolding write_data
    write_data-all out env buffer bytes used stereo flows =
        let (p, done, (all, moved)) = out_write_all env.rounds buffer bytes flows in
        ground (arith, done, all)

    -- On a started port that does not mix to mono, while the session stays ready and its queue always
    -- has room for a byte and takes each transfer, a write of at least one byte hands all `bytes`
    -- bytes to the session, does not sleep, and adds the frames of `bytes` bytes to both counters,
    -- modulo 2^64.
    pub stream_write_all :
        (out : StreamOut) (env : WriteEnv) (buffer : List ℕ) (bytes : ℕ)
        → out.port.state ≡ started
        → in_use code out.port ≡ true
        → out.port.is_stereo_to_mono ≡ false
        → Flows env.rounds
        → 0 < bytes
        → let frames = bytes / out_frame_size code pcm_of frame_size out env.port_env.session in
          (w : Written) × (out_write code pcm_of frame_size downmix out env buffer bytes ≡ some w)
          × (w.total ≡ bytes)
          × (w.slept ≡ 0)
          × (w.stream.frames_presented ≡ u64 (out.frames_presented + frames))
          × (w.stream.frames_rendered ≡ u64 (out.frames_rendered + frames))
          × (w.stream.last_write_time_us ≡ env.now)
    unfolding out_write after_write
    stream_write_all out env buffer bytes plays used stereo flows positive =
        let (stream, slept) = after_write code pcm_of frame_size out env bytes bytes in
        (
          record {
            stream = stream;
            total = bytes;
            slept = slept;
            rest = env.port_env.during ++ concat env.port_env.wakes;
          },
          ground (arith, write_data-all out env buffer bytes used stereo flows),
          refl,
          ground arith,
          ground arith,
          ground arith,
          ground arith,
        )
