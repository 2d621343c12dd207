-- ===== src/Simg/Copied.antt =====
-- What `nsendfile` of cmds/simg2img_simple.cpp copies, however the kernel cuts the calls.
use device_phh_treble_doze.Base.{
  ℕ, zero, suc, ◌+◌, ◌-◌, ◌≤◌, ◌≡◌, ◌⊎◌, inl, refl, ap, subst, sym, append-nil, ◌∙◌, arith, ◌++◌,
  ◌||◌, ◌&&◌, append_assoc, Option, none, some, length, take, drop, ltb, take-add, drop-add,
  length-drop,
}
use device_phh_treble_doze.Simg.Copy.{
  Pipe, Call, Outcome, done, exited, stuck, Round, copied, fails, moved, splice_result, write_round,
  after_splice, copy_round, copy_loop, nsendfile, is_slow,
}

-- `q` is `p` after `n` bytes.
abbrev pub IsAfter : ℕ → Pipe → Pipe → Type 0
IsAfter n p q =
    (n ≤ length p.input) × (q.input ≡ drop n p.input) × (q.output ≡ p.output ++ take n p.input)

abbrev pub Moves : ℕ → Pipe → Round → Type 0
Moves count p (copied n q) = (1 ≤ n) × (n ≤ count) × IsAfter n p q
Moves count p (fails code q) = (code ≡ 112) ⊎ (code ≡ 114)

abbrev pub Copies : ℕ → Pipe → Outcome → Type 0
Copies count p (done q) = IsAfter count p q
Copies count p (exited code q) = (code ≡ 112) ⊎ (code ≡ 114)
Copies count p stuck = ⊥

moved_le :
    (bound asked : ℕ) (p : Pipe)
    → (moved bound asked p ≤ asked) × (moved bound asked p ≤ length p.input)
moved_le bound asked p = (omega arith, omega arith)

write_round-Moves :
    (call : Call) (count n : ℕ) (p : Pipe)
    → n ≤ count
    → n ≤ length p.input
    → Moves count p (write_round call n p)
unfolding write_round
write_round-Moves call count zero p h fits = inl refl
write_round-Moves call count (suc n) p h fits = ground arith

-- The result of `splice` is -1 or a number of bytes that there are.
abbrev Fits : ℕ → Pipe → Option ℕ → Type 0
Fits count p none = Unit
Fits count p (some n) = (n ≤ count) × (n ≤ length p.input)

splice_result-Fits :
    (call : Call) (count : ℕ) (p : Pipe) → Fits count p (splice_result call count p)
unfolding splice_result
splice_result-Fits call count p = grind (arith, moved_le)

after_splice-Moves :
    (call : Call) (count : ℕ) (res : Option ℕ) (p : Pipe)
    → Fits count p res
    → Moves count p (after_splice call count res p)
unfolding after_splice
after_splice-Moves call count (some zero) p h = inl refl
after_splice-Moves call count (some (suc n)) p h = (omega arith, h.0, (h.1, refl, refl))
after_splice-Moves call count none p h = grind (arith, moved_le, write_round-Moves call count)

pub copy_round-Moves :
    (calls : ℕ → Call) (count : ℕ) (p : Pipe) → Moves count p (copy_round calls count p)
unfolding copy_round
copy_round-Moves calls count p =
    let call = calls p.round in
    let res = splice_result call count p in
    after_splice-Moves call count res
      (record p {
        disable_splice = p.disable_splice || (ltb 16384 count && is_slow res);
        round = suc p.round;
      })
      (splice_result-Fits call count p)

-- Two stretches of a copy are one.
IsAfter-trans : (n m : ℕ) (p q r : Pipe) → IsAfter n p q → IsAfter m q r → IsAfter (n + m) p r
IsAfter-trans n m p q r (a, b, c) (d, e, f) = (
  omega (arith, length-drop n p.input, ap length b),
  ground (arith, b, e, drop-add n m p.input),
  f
      ∙ ap (λ o. o ++ take m q.input) c
      ∙ append_assoc p.output (take n p.input) (take m q.input)
      ∙ ap (λ t. p.output ++ (take n p.input ++ take m t)) b
      ∙ ap (λ t. p.output ++ t) (take-add n m p.input),
)

-- The copy that follows a round of `n` bytes.
Copies-after :
    (n count : ℕ) (p q : Pipe)
    → IsAfter n p q
    → n ≤ count
    → (o : Outcome) → Copies (count - n) q o
    → Copies count p o
Copies-after n count p q after le (done r) c =
    let whole : n + (count - n) ≡ count = omega arith in
    subst (λ k. IsAfter k p r) whole (IsAfter-trans n (count - n) p q r after c)
Copies-after n count p q after le (exited code r) c = c
Copies-after n count p q after le stuck c = c

loop-Copies :
    (calls : ℕ → Call) (fuel count : ℕ) (p : Pipe)
    → count ≤ fuel
    → Copies count p (copy_loop calls fuel count p)
unfolding copy_loop
loop-Copies calls fuel zero p h = (omega arith, refl, sym (append-nil p.output))
loop-Copies calls zero (suc count) p h = absurd (omega arith)
loop-Copies calls (suc fuel) (suc count) p h =
    go (copy_round calls (suc count) p) (copy_round-Moves calls (suc count) p)
      (λ n q. loop-Copies calls fuel (suc count - n) q)
  where
    go :
        (r : Round)
        → Moves (suc count) p r
        → ((n : ℕ) (q : Pipe)
            → suc count - n ≤ fuel
            → Copies (suc count - n) q (copy_loop calls fuel (suc count - n) q))
        → Copies (suc count) p (elim r [
          | fails code q ↦ exited code q
          | copied n q ↦ copy_loop calls fuel (suc count - n) q
        ])
    go (fails code q) m more = m
    go (copied n q) (pos, le, after) more =
        Copies-after n (suc count) p q after le (copy_loop calls fuel (suc count - n) q)
          (more n q (omega arith))

-- Whatever part of what it is asked for each call moves, `nsendfile` returns after it has moved the
-- next `count` bytes of the input, and no others, to the output, or it leaves with code 112 or 114.
pub nsendfile_lem :
    (calls : ℕ → Call) (count : ℕ) (p : Pipe) → Copies count p (nsendfile calls count p)
unfolding nsendfile
nsendfile_lem calls count p = loop-Copies calls count count p (omega arith)
