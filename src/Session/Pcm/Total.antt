-- ===== src/Session/Pcm/Total.antt =====
-- The loops of `OutWritePcmData` and `InReadPcmData`, round by round.
use device_phh_treble_doze.Base.{
  ℕ, zero, suc, ◌+◌, ◌-◌, ◌≤◌, ◌<◌, ◌≡◌, refl, ◌∙◌, true, false, List, some, ltb, arith, length,
  take, min, length-append, inl, inr, Bool-cases, take-add, length-take_le,
}
use device_phh_treble_doze.Session.Pcm.{
  WriteRound, ReadRound, Progress, Verdict, stop, go, write_round, read_round, pcm_loop, at_start,
  out_write_pcm_data, in_read_pcm_data,
}

-- What the loops run down: the bytes that are missing and the milliseconds left.
abbrev measure : ℕ → Progress → ℕ
measure bytes p = bytes - p.total + p.timeout_ms

-- A round that ends the loop gives `R`; one that does not keeps `P` and brings the measure down.
abbrev Keeps : (Progress → Type 0) → (Progress → Type 0) → ℕ → ℕ → Verdict → Type 0
Keeps P R bytes m (stop q) = R q
Keeps P R bytes m (go q) = P q × (measure bytes q < m)

module _ (round : ℕ → Progress → Verdict) (bytes fuel n : ℕ) (p q : Progress) where
  pcm_loop-stop : round n p ≡ stop q → pcm_loop round bytes (suc fuel) n p ≡ some q
  unfolding pcm_loop
  pcm_loop-stop e = ground arith

  pcm_loop_done :
      round n p ≡ go q → ltb q.total bytes ≡ false → pcm_loop round bytes (suc fuel) n p ≡ some q
  unfolding pcm_loop
  pcm_loop_done e l = ground arith

  pcm_loop_go :
      round n p ≡ go q
      → ltb q.total bytes ≡ true
      → pcm_loop round bytes (suc fuel) n p ≡ pcm_loop round bytes fuel (n + 1) q
  unfolding pcm_loop
  pcm_loop_go e l = ground arith

module _ (round : ℕ → Progress → Verdict) (bytes : ℕ) (P R : Progress → Type 0)
    (keep : (n : ℕ) (p : Progress)
      → P p
      → p.total < bytes
      → Keeps P R bytes (measure bytes p) (round n p))
    (full : (p : Progress) → P p → bytes ≤ p.total → R p) where
  pcm_loop_total :
      (fuel n : ℕ) (p : Progress)
      → P p
      → p.total < bytes
      → measure bytes p < fuel
      → (q : Progress) × (pcm_loop round bytes fuel n p ≡ some q) × R q
  pcm_loop_total zero n p hp below enough = absurd (omega arith)
  pcm_loop_total (suc fuel) n p hp below enough =
      after (round n p) refl (keep n p hp below) (pcm_loop_total fuel (n + 1))
    where
      after :
          (v : Verdict)
          → round n p ≡ v
          → Keeps P R bytes (measure bytes p) v
          → ((q : Progress)
              → P q
              → q.total < bytes
              → measure bytes q < fuel
              → (r : Progress) × (pcm_loop round bytes fuel (n + 1) q ≡ some r) × R r)
          → (q : Progress) × (pcm_loop round bytes (suc fuel) n p ≡ some q) × R q
      after (stop q) e h more = (q, pcm_loop-stop round bytes fuel n p q e, h)
      after (go q) e (h, less) more = elim (Bool-cases (ltb q.total bytes)) [
        | inl below_q ↦
            let (r, done, hr) = more q h (ground arith) (ground arith) in
            (r, pcm_loop_go round bytes fuel n p q e below_q ∙ done, hr)
        | inr done ↦ (q, pcm_loop_done round bytes fuel n p q e done, full q h (ground arith))
      ]

-- The bytes moved are the first `total` of the buffer.
abbrev pub IsWritten : List ℕ → ℕ → Progress → Type 0
IsWritten buffer bytes p = (p.total ≤ bytes) × (p.moved ≡ take p.total buffer)

write_round-Keeps :
    (buffer : List ℕ) (bytes : ℕ) (r : WriteRound) (p : Progress)
    → IsWritten buffer bytes p
    → p.total < bytes
    → Keeps
        (IsWritten buffer bytes)
        (IsWritten buffer bytes)
        bytes
        (measure bytes p)
        (write_round buffer bytes r p)
unfolding write_round
write_round-Keeps buffer bytes r p (le, moved) below =
    ground (arith, take-add p.total (min r.available (bytes - p.total)) buffer)

-- The bytes handed over are as many as the count, within what was asked for.
abbrev pub IsReceived : ℕ → Progress → Type 0
IsReceived bytes p = (p.total ≤ bytes) × (length p.moved ≡ p.total)

read_round-Keeps :
    (bytes : ℕ) (r : ReadRound) (p : Progress)
    → IsReceived bytes p
    → p.total < bytes
    → Keeps (IsReceived bytes) (IsReceived bytes) bytes (measure bytes p) (read_round bytes r p)
unfolding read_round
read_round-Keeps bytes r p (le, moved) below = ground (
  arith,
  length-take_le (min (length r.waiting) (bytes - p.total)) r.waiting,
  length-append p.moved (take (min (length r.waiting) (bytes - p.total)) r.waiting),
)

-- For every behaviour of the other threads and every buffer, a write ends, within the milliseconds
-- and bytes it has: it returns a count of at most `bytes`, and the queue got the first `count` bytes
-- of the buffer, in their order.
pub out_write_total :
    (env : ℕ → WriteRound) (buffer : List ℕ) (bytes : ℕ)
    → (p : Progress) × (out_write_pcm_data env (some buffer) bytes ≡ some p)
      × IsWritten buffer bytes p
unfolding out_write_pcm_data
out_write_total env buffer zero = (at_start, refl, (omega arith, refl))
out_write_total env buffer (suc n) =
    let (p, done, kept) =
      pcm_loop_total (λ i. write_round buffer (suc n) (env i)) (suc n) (IsWritten buffer (suc n))
        (IsWritten buffer (suc n)) (λ i. write_round-Keeps buffer (suc n) (env i)) (λ p h enough. h)
        (suc n + 1001) 0 at_start (omega arith, refl) (omega arith) (omega arith) in
    (p, ground (arith, done), kept)

-- For every behaviour of the other threads, a read ends: it returns a count of at most `bytes`, and
-- has handed over that many bytes.
pub in_read_total :
    (env : ℕ → ReadRound) (bytes : ℕ)
    → (p : Progress) × (in_read_pcm_data env true bytes ≡ some p) × IsReceived bytes p
unfolding in_read_pcm_data
in_read_total env zero = (at_start, refl, (omega arith, refl))
in_read_total env (suc n) =
    let (p, done, kept) =
      pcm_loop_total (λ i. read_round (suc n) (env i)) (suc n) (IsReceived (suc n))
        (IsReceived (suc n)) (λ i. read_round-Keeps (suc n) (env i)) (λ p h enough. h)
        (suc n + 1001) 0 at_start (omega arith, refl) (omega arith) (omega arith) in
    (p, ground (arith, done), kept)

-- The queue always has room for at least one byte, and the session stays ready.
abbrev pub Flows : (ℕ → WriteRound) → Type 0
Flows env = (n : ℕ) → ((env n).ready ≡ true) × (0 < (env n).available) × ((env n).transfers ≡ true)

-- All of the first `bytes` bytes are written.
abbrev pub IsDone : List ℕ → ℕ → Progress → Type 0
IsDone buffer bytes p = (p.total ≡ bytes) × (p.moved ≡ take bytes buffer)

write_round-flows :
    (buffer : List ℕ) (bytes : ℕ) (r : WriteRound) (p : Progress)
    → (r.ready ≡ true) × (0 < r.available) × (r.transfers ≡ true)
    → IsWritten buffer bytes p
    → p.total < bytes
    → Keeps
        (IsWritten buffer bytes)
        (IsDone buffer bytes)
        bytes
        (measure bytes p)
        (write_round buffer bytes r p)
unfolding write_round
write_round-flows buffer bytes r p flows (le, moved) below =
    ground (arith, take-add p.total (min r.available (bytes - p.total)) buffer)

-- While the session stays ready and the queue always has room for a byte and takes each transfer,
-- all of the `bytes` bytes are written, in their order.
pub out_write_all :
    (env : ℕ → WriteRound) (buffer : List ℕ) (bytes : ℕ)
    → Flows env
    → (p : Progress) × (out_write_pcm_data env (some buffer) bytes ≡ some p) × IsDone buffer bytes p
unfolding out_write_pcm_data
out_write_all env buffer zero flows = (at_start, refl, (refl, refl))
out_write_all env buffer (suc n) flows =
    let (p, done, kept) =
      pcm_loop_total (λ i. write_round buffer (suc n) (env i)) (suc n) (IsWritten buffer (suc n))
        (IsDone buffer (suc n)) (λ i p. write_round-flows buffer (suc n) (env i) p (flows i))
        (λ p h enough. ground arith) (suc n + 1001) 0 at_start (omega arith, refl) (omega arith)
        (omega arith) in
    (p, ground (arith, done), kept)
