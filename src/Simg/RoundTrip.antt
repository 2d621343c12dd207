-- ===== src/Simg/RoundTrip.antt =====
-- cmds/simg2img_simple.cpp writes out what the chunks of a sparse image stand for.
use device_phh_treble_doze.Base.{
  ℕ, zero, suc, Bool, true, false, ◌||◌, ◌+◌, ◌*◌, ◌/◌, ◌≤◌, ◌<◌, ◌≡◌, refl, ap, sym, ◌∙◌, arith,
  List, [], ◌∷◌, ◌++◌, append_assoc, append-nil, length, replicate, All,
}
use device_phh_treble_doze.Simg.Copy.{Pipe, Call, Outcome, done}
use device_phh_treble_doze.Simg.Main.{
  chunk_type_raw, chunk_type_fill, chunk_type_dont_care, chunk_type_crc32, run_body, run_chunk,
  run_chunks, run_image, main,
}
use device_phh_treble_doze.Simg.Smooth.{IsSmooth, Writes, read_exact_lem, write_blocks_lem}
use device_phh_treble_doze.Simg.Format.{
  Chunk, raw, fill, dont_care, crc32, put32, expand, encode, IsChunk, expand_all, encode_all,
  put_file_header, image, sparse_header-put_file_header, is_other_fill, has_other_fill,
  before_other_fill,
}
use device_phh_treble_doze.Simg.Bodies.{
  Refuses, run_chunk_step, run_raw_lem, run_fill_lem, other_fill_lem, run_crc32_lem,
}

-- What `main` is to do with chunks, by whether there is a fill by another value than 0 among them.
abbrev pub Expands : ℕ → Bool → List Chunk → Outcome → Pipe → List ℕ → Type 0
Expands blk false cs o p rest = Writes o p (expand_all blk cs) rest
Expands blk true cs o p rest = Refuses o p (expand_all blk (before_other_fill cs))

-- Only the output of the pipe counts.
same_output :
    (b : Bool) (blk : ℕ) (cs : List Chunk) (o : Outcome) (p q : Pipe) (rest : List ℕ)
    → q.output ≡ p.output
    → Expands blk b cs o q rest
    → Expands blk b cs o p rest
same_output false blk cs o p q rest e (r, same, input, output) =
    (r, same, input, output ∙ ap (λ t. t ++ expand_all blk cs) e)
same_output true blk cs o p q rest e (r, same, output) =
    (r, same, output ∙ ap (λ t. t ++ expand_all blk (before_other_fill cs)) e)

module _ (calls : ℕ → Call) (smooth : (k : ℕ) → IsSmooth (calls k)) where
  module _ (blk : ℕ) (small : blk ≤ 1048576) (whole : blk / 4 * 4 ≡ blk) where
    -- The chunk `c` at the head of the input.
    run_chunk_lem :
        (c : Chunk) (rest : List ℕ) (p : Pipe)
        → IsChunk blk c
        → p.input ≡ encode blk c rest
        → Expands blk (is_other_fill c) (c ∷ []) (run_chunk calls blk p) p rest
    run_chunk_lem (raw n d) rest p (l, a, b) e =
        let (q, same, input, output) =
          run_raw_lem calls smooth blk small whole n d rest
            (record p { input = d ++ rest; round = suc p.round }) refl l b in
        (
          q,
          run_chunk_step calls smooth blk small whole chunk_type_raw n (12 + n * blk) p (d ++ rest)
                e (omega arith) a b
              ∙ same,
          input,
          output ∙ ap (p.output ++◌) (sym (append-nil d)),
        )
    run_chunk_lem (fill n zero) rest p (a, b) e =
        let (q, same, input, output) =
          run_fill_lem calls smooth blk small whole n rest
            (record p { input = put32 0 rest; round = suc p.round }) refl in
        (
          q,
          run_chunk_step calls smooth blk small whole chunk_type_fill n 16 p (put32 0 rest) e
                (omega arith) a (omega arith)
              ∙ same,
          input,
          output ∙ ap (p.output ++◌) (sym (append-nil (expand blk (fill n 0)))),
        )
    run_chunk_lem (fill n (suc v)) rest p (a, b) e =
        let (q, same, output) =
          other_fill_lem calls smooth blk small whole n v rest
            (record p { input = put32 (suc v) rest; round = suc p.round }) b refl in
        (
          q,
          run_chunk_step calls smooth blk small whole chunk_type_fill n 16 p (put32 (suc v) rest) e
                (omega arith) a (omega arith)
              ∙ same,
          output,
        )
    run_chunk_lem (dont_care n) rest p a e =
        let (q, same, input, output) =
          write_blocks_lem calls smooth 10 blk n (record p { input = rest; round = suc p.round })
            small in
        (
          q,
          run_chunk_step calls smooth blk small whole chunk_type_dont_care n 12 p rest e
                (omega arith) a (omega arith)
              ∙ (unfold run_body in same),
          input,
          output ∙ ap (p.output ++◌) (sym (append-nil (replicate (n * blk) 0))),
        )
    run_chunk_lem (crc32 v) rest p a e =
        let (q, same, input, output) =
          run_crc32_lem calls smooth blk small whole v rest
            (record p { input = put32 v rest; round = suc p.round }) refl in
        (
          q,
          run_chunk_step calls smooth blk small whole chunk_type_crc32 0 16 p (put32 v rest) e
                (omega arith) (omega arith) (omega arith)
              ∙ same,
          input,
          output,
        )

    -- The chunks after one that is written.
    after_chunk :
        (b : Bool) (c : Chunk) (cs : List Chunk) (p q : Pipe) (rest : List ℕ)
        → is_other_fill c ≡ false
        → run_chunk calls blk p ≡ done q
        → q.output ≡ p.output ++ expand_all blk (c ∷ [])
        → Expands blk b cs (run_chunks calls blk (length cs) q) q rest
        → Expands blk b (c ∷ cs) (run_chunks calls blk (length (c ∷ cs)) p) p rest
    unfolding run_chunks
    after_chunk false c cs p q rest zeros same output (r, same', input', output') = (
      r,
      rw (run_chunks, same) same',
      input',
      output'
          ∙ ap (λ o. o ++ expand_all blk cs)
              (output ∙ ap (p.output ++◌) (append-nil (expand blk c)))
          ∙ append_assoc p.output (expand blk c) (expand_all blk cs),
    )
    after_chunk true c cs p q rest zeros same output (r, same', output') =
        let good = expand_all blk (before_other_fill cs) in
        let kept : before_other_fill (c ∷ cs) ≡ c ∷ before_other_fill cs = ground (arith, zeros) in
        (
          r,
          rw (run_chunks, same) same',
          output'
              ∙ ap (λ o. o ++ good) (output ∙ ap (p.output ++◌) (append-nil (expand blk c)))
              ∙ append_assoc p.output (expand blk c) good
              ∙ ap (λ t. p.output ++ expand_all blk t) (sym kept),
        )

    refused_chunk :
        (c : Chunk) (cs : List Chunk) (p : Pipe)
        → is_other_fill c ≡ true
        → Refuses (run_chunk calls blk p) p (expand_all blk (before_other_fill (c ∷ [])))
        → Refuses
            (run_chunks calls blk (length (c ∷ cs)) p)
            p
            (expand_all blk (before_other_fill (c ∷ cs)))
    unfolding run_chunks
    refused_chunk c cs p other (q, same, output) =
        let first : before_other_fill (c ∷ []) ≡ [] = ground (arith, other) in
        let all : before_other_fill (c ∷ cs) ≡ [] = ground (arith, other) in
        (
          q,
          rw (run_chunks, same) refl,
          output ∙ ap (λ t. p.output ++ expand_all blk t) (first ∙ sym all),
        )

    run_chunks_lem :
        (cs : List Chunk) (rest : List ℕ) (p : Pipe)
        → All (IsChunk blk) cs
        → p.input ≡ encode_all blk cs rest
        → Expands blk (has_other_fill cs) cs (run_chunks calls blk (length cs) p) p rest
    unfolding run_chunks
    run_chunks_lem [] rest p h e = (p, refl, e, sym (append-nil p.output))
    run_chunks_lem (c ∷ cs) rest p (hc, hs) e =
        go (is_other_fill c) refl (run_chunk_lem c (encode_all blk cs rest) p hc e)
          (λ q. run_chunks_lem cs rest q hs)
      where
        go :
            (b : Bool)
            → is_other_fill c ≡ b
            → Expands blk b (c ∷ []) (run_chunk calls blk p) p (encode_all blk cs rest)
            → ((q : Pipe)
                → q.input ≡ encode_all blk cs rest
                → Expands blk (has_other_fill cs) cs (run_chunks calls blk (length cs) q) q rest)
            → Expands blk
                (b || has_other_fill cs)
                (c ∷ cs)
                (run_chunks calls blk (length (c ∷ cs)) p)
                p
                rest
        go false zeros (q, same, input, output) more =
            after_chunk (has_other_fill cs) c cs p q rest zeros same output (more q input)
        go true other refused more = refused_chunk c cs p other refused

  -- `main` on a kernel whose `write` takes all of a buffer of up to 1 MiB, whose `read` gives at least
  -- 28 bytes of what it is asked for or all that there are, and whose `splice` fails or moves at least a
  -- byte, and on a file with a valid header and valid chunks. If no chunk is a fill by another value
  -- than 0, it returns after it has written the bytes that the chunks stand for, in order, and no
  -- others, and has not read what follows the chunks; otherwise it leaves with code 6 after it has
  -- written the bytes of the chunks before the first such fill, and no others.
  pub main_lem :
      (blocks sum : ℕ) (cs : List Chunk) (rest : List ℕ) (p : Pipe)
      → blocks < 4294967296
      → sum < 4294967296
      → length cs < 4294967296
      → All (IsChunk 4096) cs
      → p.input ≡ image blocks sum cs rest
      → Expands 4096 (has_other_fill cs) cs (main calls p) p rest
  unfolding main run_image
  main_lem blocks sum cs rest p a b c h e =
      let body = encode_all 4096 cs rest in
      let q : Pipe = record p { input = body; round = suc p.round } in
      rw
        (
          main,
          read_exact_lem calls smooth 28 p (put_file_header blocks (length cs) sum []) body e refl
              (omega arith),
          sparse_header-put_file_header blocks (length cs) sum a c b,
        )
        (same_output (has_other_fill cs) 4096 cs (run_chunks calls 4096 (length cs) q) p q rest refl
          (run_chunks_lem 4096 (omega arith) refl cs rest q h refl))
