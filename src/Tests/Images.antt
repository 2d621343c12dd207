-- ===== src/Tests/Images.antt =====
-- Examples about sparse images.
use device_phh_treble_doze.Base.{ℕ, refl, arith, false, List, [], ◌∷◌, none, some}
use device_phh_treble_doze.Simg.Copy.{Pipe, Call, nsendfile}
use device_phh_treble_doze.Simg.Main.{main}
use device_phh_treble_doze.Simg.Copied.{Copies, nsendfile_lem}
use device_phh_treble_doze.Simg.Smooth.{IsSmooth}
use device_phh_treble_doze.Simg.Format.{Chunk, fill, dont_care, crc32, image, has_other_fill}
use device_phh_treble_doze.Simg.RoundTrip.{Expands, main_lem}

-- A kernel without `splice`.
abbrev plain_call : Call
plain_call = record { splice = none; read = some 1048576; write = 1048576 }

abbrev plain : ℕ → Call
plain k = plain_call

abbrev pipe_of : List ℕ → Pipe
pipe_of bytes = record { input = bytes; output = []; disable_splice = false; round = 0 }

abbrev three_bytes : Pipe
three_bytes = pipe_of (1 ∷ 2 ∷ 3 ∷ [])

nsendfile_lem_example : Copies 2 three_bytes (nsendfile plain 2 three_bytes)
nsendfile_lem_example = nsendfile_lem plain 2 three_bytes

plain-IsSmooth : (k : ℕ) → IsSmooth (plain k)
plain-IsSmooth k = (ground arith, 1048576, refl, omega arith, omega arith)

-- The fill by 5 is refused.
abbrev three_chunks : List Chunk
three_chunks = dont_care 3 ∷ crc32 7 ∷ fill 2 5 ∷ []

abbrev file_of_three : Pipe
file_of_three = pipe_of (image 5 0 three_chunks (9 ∷ []))

main_lem_example :
    Expands 4096
      (has_other_fill three_chunks)
      three_chunks
      (main plain file_of_three)
      file_of_three
      (9 ∷ [])
main_lem_example =
    main_lem plain plain-IsSmooth 5 0 three_chunks (9 ∷ []) file_of_three (omega arith)
      (omega arith) (omega arith) (omega arith, (omega arith, ((omega arith, omega arith), tt)))
      refl
