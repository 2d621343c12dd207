-- ===== src/Simg/Smooth.antt =====
-- `nsendfile`, the reads and the loops of cmds/simg2img_simple.cpp on a kernel whose reads give a
-- header whole and whose writes take a buffer whole, as those of a regular file or a block device do.
use device_phh_treble_doze.Base.{
  ℕ, zero, suc, ◌+◌, ◌-◌, ◌*◌, ◌≤◌, ◌≡◌, ◌≢◌, refl, ap, sym, ◌∙◌, arith, List, ◌++◌, append_assoc,
  append-nil, some, length, take, drop, replicate, take-append, drop-append, length-drop,
  replicate_add, length-append,
}
use device_phh_treble_doze.Simg.Copy.{
  Pipe, Call, Outcome, done, exited, stuck, nsendfile, Round, copied, fails, copy_round,
  splice_result, after_splice, write_round, copy_loop,
}
use device_phh_treble_doze.Simg.Main.{read_exact, write_blocks}
use device_phh_treble_doze.Simg.Copied.{Copies, Moves, copy_round-Moves, nsendfile_lem}

-- A `splice` fails or moves at least a byte, a `read` gives at least 28 bytes of what it is asked for
-- or all that there are, and a `write` takes all of a buffer of up to 1 MiB.
abbrev pub IsSmooth : Call → Type 0
IsSmooth c =
    (c.splice ≢ some 0) × (bound : ℕ) × (c.read ≡ some bound) × (28 ≤ bound) × (1048576 ≤ c.write)

abbrev IsCopied : Round → Type 0
IsCopied (copied n q) = Unit
IsCopied (fails code q) = ⊥

abbrev IsDone : Outcome → Type 0
IsDone (done q) = Unit
IsDone (exited code q) = ⊥
IsDone stuck = ⊥

-- The outcome is a return after `out` has been written and with `rest` left to read.
abbrev pub Writes : Outcome → Pipe → List ℕ → List ℕ → Type 0
Writes o p out rest = (q : Pipe) × (o ≡ done q) × (q.input ≡ rest) × (q.output ≡ p.output ++ out)

take_prefix : (n : ℕ) (xs d rest : List ℕ) → xs ≡ d ++ rest → length d ≡ n → take n xs ≡ d
take_prefix n xs d rest e l =
    ap (λ k. take k xs) (sym l) ∙ ap (take (length d)) e ∙ take-append d rest

drop_prefix : (n : ℕ) (xs d rest : List ℕ) → xs ≡ d ++ rest → length d ≡ n → drop n xs ≡ rest
drop_prefix n xs d rest e l =
    ap (λ k. drop k xs) (sym l) ∙ ap (drop (length d)) e ∙ drop-append d rest

module _ (calls : ℕ → Call) (smooth : (k : ℕ) → IsSmooth (calls k)) where
  copy_round-IsCopied :
      (count : ℕ) (p : Pipe)
      → 1 ≤ count
      → count ≤ length p.input
      → IsCopied (copy_round calls count p)
  unfolding copy_round splice_result after_splice write_round
  copy_round-IsCopied count p pos fits =
      let (moves, bound, reads, more, takes) = smooth p.round in
      ground (arith, moves, reads, more, takes)

  loop-IsDone :
      (fuel count : ℕ) (p : Pipe)
      → count ≤ fuel
      → count ≤ length p.input
      → IsDone (copy_loop calls fuel count p)
  unfolding copy_loop
  loop-IsDone fuel zero p h fits = tt
  loop-IsDone zero (suc count) p h fits = absurd (omega arith)
  loop-IsDone (suc fuel) (suc count) p h fits =
      go (copy_round calls (suc count) p) (copy_round-IsCopied (suc count) p (omega arith) fits)
        (copy_round-Moves calls (suc count) p) (λ n q. loop-IsDone fuel (suc count - n) q)
    where
      go :
          (r : Round)
          → IsCopied r
          → Moves (suc count) p r
          → ((n : ℕ) (q : Pipe)
              → suc count - n ≤ fuel
              → suc count - n ≤ length q.input
              → IsDone (copy_loop calls fuel (suc count - n) q))
          → IsDone (elim r [
            | fails code q ↦ exited code q
            | copied n q ↦ copy_loop calls fuel (suc count - n) q
          ])
      go (fails code q) impossible m more = absurd impossible
      go (copied n q) is (pos, le, after) more =
          more n q (omega arith) (omega (arith, fits, length-drop n p.input, ap length after.1))

  pub nsendfile-Writes :
      (count : ℕ) (p : Pipe) (d rest : List ℕ)
      → p.input ≡ d ++ rest
      → length d ≡ count
      → Writes (nsendfile calls count p) p d rest
  nsendfile-Writes count p d rest e l =
      go (nsendfile calls count p) refl
        (unfold nsendfile in
          loop-IsDone count count p (omega arith)
            (omega (arith, l, ap length e, length-append d rest)))
        (nsendfile_lem calls count p)
    where
      go :
          (o : Outcome)
          → nsendfile calls count p ≡ o
          → IsDone o
          → Copies count p o
          → Writes (nsendfile calls count p) p d rest
      go (done q) same is (fits, input, output) = (
        q,
        same,
        input ∙ drop_prefix count p.input d rest e l,
        output ∙ ap (p.output ++◌) (take_prefix count p.input d rest e l),
      )
      go (exited code q) same impossible c = absurd impossible
      go stuck same impossible c = absurd impossible

  pub read_exact_lem :
      (n : ℕ) (p : Pipe) (bytes rest : List ℕ)
      → p.input ≡ bytes ++ rest
      → length bytes ≡ n
      → n ≤ 28
      → read_exact calls n p ≡ some (bytes, record p { input = rest; round = suc p.round })
  unfolding read_exact
  read_exact_lem n p bytes rest e l h =
      let (moves, bound, reads, more, takes) = smooth p.round in
      let fits : n ≤ length p.input = omega (arith, l, ap length e, length-append bytes rest) in
      ground (
        arith,
        reads,
        more,
        fits,
        take_prefix n p.input bytes rest e l,
        drop_prefix n p.input bytes rest e l,
      )

  write_block :
      (code blk n : ℕ) (p : Pipe)
      → blk ≤ 1048576
      → write_blocks calls code blk (suc n) p
        ≡ write_blocks calls code blk n
            (record p { output = p.output ++ replicate blk 0; round = suc p.round })
  unfolding write_blocks
  write_block code blk n p h =
      let (moves, bound, reads, more, takes) = smooth p.round in ground (arith, takes)

  pub write_blocks_lem :
      (code blk n : ℕ) (p : Pipe)
      → blk ≤ 1048576
      → Writes (write_blocks calls code blk n p) p (replicate (n * blk) 0) p.input
  unfolding write_blocks
  write_blocks_lem code blk zero p h =
      let none_left : 0 ≡ 0 * blk = omega arith in
      (p, refl, refl, sym (append-nil p.output) ∙ ap (λ k. p.output ++ replicate k 0) none_left)
  write_blocks_lem code blk (suc n) p h =
      let (q, same, input, output) =
        write_blocks_lem code blk n
          (record p { output = p.output ++ replicate blk 0; round = suc p.round }) h in
      let one_more : blk + n * blk ≡ suc n * blk = omega arith in
      (
        q,
        write_block code blk n p h ∙ same,
        input,
        output
            ∙ append_assoc p.output (replicate blk 0) (replicate (n * blk) 0)
            ∙ ap (p.output ++◌) (replicate_add blk (n * blk) 0)
            ∙ ap (λ k. p.output ++ replicate k 0) one_more,
      )
