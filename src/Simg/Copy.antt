-- ===== src/Simg/Copy.antt =====
-- `nsendfile` of cmds/simg2img_simple.cpp. The kernel is a parameter: each system call takes or
-- gives a part of what it is asked for, or fails.
use device_phh_treble_doze.Base.{
  ℕ, zero, suc, ◌-◌, min, Bool, true, ◌&&◌, ◌||◌, List, ◌++◌, Option, none, some, length, take,
  drop, ltb, if◌then◌else◌,
}

-- What is left to read, what has been written, the static flag, and the number of calls so far.
pub record Pipe : Type 0 where
  pub input : List ℕ
  pub output : List ℕ
  pub disable_splice : Bool
  pub round : ℕ

-- The most bytes that a `splice`, a `read` and a `write` move; `none` is -1. A failing `write` takes 0.
pub record Call : Type 0 where
  pub splice : Option ℕ
  pub read : Option ℕ
  pub write : ℕ

-- The end of a run. `stuck` means that the fuel ran out.
pub data Outcome : Type 0 where
  done : Pipe → Outcome
  exited : ℕ → Pipe → Outcome
  stuck : Outcome

-- One round of the loop: the bytes moved, or the code of `exit`.
pub data Round : Type 0 where
  copied : ℕ → Pipe → Round
  fails : ℕ → Pipe → Round

abbrev pub moved : ℕ → ℕ → Pipe → ℕ
moved bound asked p = min bound (min asked (length p.input))

-- The first bytes of the input go to the output.
abbrev pub transfer : ℕ → Pipe → Pipe
transfer n p = record p { input = drop n p.input; output = p.output ++ take n p.input }

abbrev pub k_buffer : ℕ
k_buffer = 1048576

-- `splice`, with -1 when it is disabled.
unfoldable pub splice_result : Call → ℕ → Pipe → Option ℕ
splice_result call count p =
    if p.disable_splice
    then none
    else (elim call.splice [ none ↦ none | some bound ↦ some (moved bound count p) ])

-- `res < 1024`.
abbrev pub is_slow : Option ℕ → Bool
is_slow none = true
is_slow (some n) = ltb n 1024

-- `write` after `read` has returned a number. A `write` of what a failed `read` returns fails too.
unfoldable pub write_round : Call → ℕ → Pipe → Round
write_round call zero p = fails 112 p
write_round call (suc n) p =
    if ltb call.write (suc n)
    then fails 114
        (record p { input = drop (suc n) p.input; output = p.output ++ take call.write p.input })
    else copied (suc n) (transfer (suc n) p)

-- What follows the result of `splice`.
unfoldable pub after_splice : Call → ℕ → Option ℕ → Pipe → Round
after_splice call count (some zero) p = fails 112 p
after_splice call count (some (suc n)) p = copied (suc n) (transfer (suc n) p)
after_splice call count none p = elim call.read [
  | none ↦ fails 112 p
  | some bound ↦ write_round call (moved bound (min count k_buffer) p) p
]

unfoldable pub copy_round : (ℕ → Call) → ℕ → Pipe → Round
copy_round calls count p =
    let call = calls p.round in
    let res = splice_result call count p in
    after_splice call count res (record p {
      disable_splice = p.disable_splice || (ltb 16384 count && is_slow res);
      round = suc p.round;
    })

unfoldable pub copy_loop : (ℕ → Call) → ℕ → ℕ → Pipe → Outcome
copy_loop calls fuel zero p = done p
copy_loop calls zero (suc count) p = stuck
copy_loop calls (suc fuel) (suc count) p = elim (copy_round calls (suc count) p) [
  | fails code q ↦ exited code q
  | copied n q ↦ copy_loop calls fuel (suc count - n) q
]

-- Each round moves a byte or leaves, so `count` rounds are enough.
unfoldable pub nsendfile : (ℕ → Call) → ℕ → Pipe → Outcome
nsendfile calls count p = copy_loop calls count count p
