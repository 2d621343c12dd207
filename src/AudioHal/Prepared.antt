-- ===== src/AudioHal/Prepared.antt =====
-- The queues that `prepareForWriting` and `prepareForReading` of audio/hal make.
use device_phh_treble_doze.Base.{ℕ, ◌*◌, ◌/◌, ◌≤◌, ◌≡◌, ◌≢◌, ◌⊎◌, arith, false, none, some, ltb}
use native.Mathlib.Nat.{div-mul-le_self, mul-le-mul_right}
use device_phh_treble_doze.AudioHal.Status.{ok}
use device_phh_treble_doze.AudioHal.Out.{
  StreamOut, max_buffer_size, PrepareEnv, prepare_for_writing,
}
use device_phh_treble_doze.AudioHal.In.{StreamIn, prepare_for_reading}

product_le :
    (size count : ℕ) → ltb (max_buffer_size / count) size ≡ false → size * count ≤ max_buffer_size
product_le size count h =
    let fits : size ≤ max_buffer_size / count = ground arith in
    omega (
      arith,
      mul-le-mul_right {m = size} {n = max_buffer_size / count} count fits,
      div-mul-le_self max_buffer_size count,
    )

-- When the preparation of a stream for writing answers ok, it had not been prepared, and its data
-- queue has the size of a frame times the number of frames, which has not wrapped around and is at
-- most the largest buffer; otherwise the stream is as it was. The same holds of reading.
pub prepare_lem :
    (out : StreamOut) (sin : StreamIn) (env : PrepareEnv) (size count : ℕ)
    → (let (out', result) = prepare_for_writing out env size count in
        ((result ≡ ok)
          × (out.data_mq ≡ none)
          × (out'.data_mq ≡ some (size * count))
          × (size * count ≤ max_buffer_size))
        ⊎ ((result ≢ ok) × (out' ≡ out)))
      × (let (sin', result) = prepare_for_reading sin env size count in
          ((result ≡ ok)
            × (sin.data_mq ≡ none)
            × (sin'.data_mq ≡ some (size * count))
            × (size * count ≤ max_buffer_size))
          ⊎ ((result ≢ ok) × (sin' ≡ sin)))
unfolding prepare_for_writing prepare_for_reading
prepare_lem out sin env size count =
    (ground (arith, product_le size count), ground (arith, product_le size count))
