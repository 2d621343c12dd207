-- ===== src/Simg/Bodies.antt =====
-- What each kind of chunk makes cmds/simg2img_simple.cpp do.
use device_phh_treble_doze.Base.{
  ℕ, suc, ◌+◌, ◌*◌, ◌/◌, ◌≤◌, ◌<◌, ◌≡◌, refl, ap, sym, ◌∙◌, arith, List, [], ◌++◌, append-nil,
  length,
}
use device_phh_treble_doze.Simg.Copy.{Pipe, Call, Outcome, exited, nsendfile}
use device_phh_treble_doze.Simg.Main.{
  u32, le16, le32, chunk_type_raw, chunk_type_fill, chunk_type_crc32, run_fill, run_crc32, run_body,
  run_chunk,
}
use device_phh_treble_doze.Simg.Smooth.{
  IsSmooth, Writes, nsendfile-Writes, read_exact_lem, write_blocks_lem,
}
use device_phh_treble_doze.Simg.Format.{
  fill, put32, put_header, expand, chunk_header-put_header, expand_zero, le32-put32,
}

-- The outcome is an exit with code 6 after `out` has been written.
abbrev pub Refuses : Outcome → Pipe → List ℕ → Type 0
Refuses o p out = (q : Pipe) × (o ≡ exited 6 q) × (q.output ≡ p.output ++ out)

module _ (calls : ℕ → Call) (smooth : (k : ℕ) → IsSmooth (calls k)) where
  -- A chunk: its header, and then what its kind asks for.
  module _ (blk : ℕ) (small : blk ≤ 1048576) (whole : blk / 4 * 4 ≡ blk) where
    pub run_chunk_step :
        (type sz total : ℕ) (p : Pipe) (body : List ℕ)
        → p.input ≡ put_header type sz total body
        → type < 65536
        → sz < 4294967296
        → total < 4294967296
        → run_chunk calls blk p
          ≡ run_body calls blk
              (record { chunk_type = type; reserved1 = 0; chunk_sz = sz; total_sz = total })
              (record p { input = body; round = suc p.round })
    unfolding run_chunk
    run_chunk_step type sz total p body e a b c =
        rw
          (
            run_chunk,
            read_exact_lem calls smooth 12 p (put_header type sz total []) body e refl
                (omega arith),
            chunk_header-put_header type sz total a b c,
          )
          refl

    raw_body :
        (n : ℕ) (p : Pipe)
        → 12 + n * blk < 4294967296
        → run_body calls blk
            (record {
              chunk_type = chunk_type_raw;
              reserved1 = 0;
              chunk_sz = n;
              total_sz = 12 + n * blk;
            })
            p
          ≡ nsendfile calls (n * blk) p
    unfolding run_body
    raw_body n p h =
        let u32_self : u32 (n * blk) ≡ n * blk = omega arith in
        let turned : blk * n ≡ n * blk = omega arith in
        ground (arith, u32_self, turned, ap u32 turned)

    pub run_raw_lem :
        (n : ℕ) (d rest : List ℕ) (p : Pipe)
        → p.input ≡ d ++ rest
        → length d ≡ n * blk
        → 12 + n * blk < 4294967296
        → Writes
            (run_body calls blk
              (record {
                chunk_type = chunk_type_raw;
                reserved1 = 0;
                chunk_sz = n;
                total_sz = 12 + n * blk;
              })
              p)
            p
            d
            rest
    unfolding run_body
    run_raw_lem n d rest p e l h =
        let (q, same, input, output) = nsendfile-Writes calls smooth (n * blk) p d rest e l in
        (q, (raw_body n p h) ∙ same, input, output)

    pub run_fill_lem :
        (n : ℕ) (rest : List ℕ) (p : Pipe)
        → p.input ≡ put32 0 rest
        → Writes
            (run_body calls blk
              (record { chunk_type = chunk_type_fill; reserved1 = 0; chunk_sz = n; total_sz = 16 })
              p)
            p
            (expand blk (fill n 0))
            rest
    unfolding run_body run_fill le32 le16
    run_fill_lem n rest p e =
        let (q, same, input, output) =
          write_blocks_lem calls smooth 8 blk n (record p { input = rest; round = suc p.round })
            small in
        (
          q,
          rw (read_exact_lem calls smooth 4 p (put32 0 []) rest e refl (omega arith)) same,
          input,
          output ∙ ap (p.output ++◌) (expand_zero blk n whole),
        )

    -- The fill by another value, which `main` refuses.
    pub other_fill_lem :
        (n v : ℕ) (rest : List ℕ) (p : Pipe)
        → suc v < 4294967296
        → p.input ≡ put32 (suc v) rest
        → Refuses
            (run_body calls blk
              (record { chunk_type = chunk_type_fill; reserved1 = 0; chunk_sz = n; total_sz = 16 })
              p)
            p
            []
    unfolding run_body run_fill
    other_fill_lem n v rest p small_v e = (
      record p { input = rest; round = suc p.round },
      rw
          (
            read_exact_lem calls smooth 4 p (put32 (suc v) []) rest e refl (omega arith),
            le32-put32 (suc v) small_v,
          )
          (ground arith),
      sym (append-nil p.output),
    )

    pub run_crc32_lem :
        (v : ℕ) (rest : List ℕ) (p : Pipe)
        → p.input ≡ put32 v rest
        → Writes
            (run_body calls blk
              (record { chunk_type = chunk_type_crc32; reserved1 = 0; chunk_sz = 0; total_sz = 16 })
              p)
            p
            []
            rest
    unfolding run_body run_crc32
    run_crc32_lem v rest p e = (
      record p { input = rest; round = suc p.round },
      rw (read_exact_lem calls smooth 4 p (put32 v []) rest e refl (omega arith)) refl,
      refl,
      sym (append-nil p.output),
    )
