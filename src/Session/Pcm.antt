-- ===== src/Session/Pcm.antt =====
-- `OutWritePcmData` and `InReadPcmData` of BluetoothAudioSession.cpp. Each round of their loops takes
-- the lock anew, so what it meets is chosen by the other threads: `env n` is what round `n` meets.
pub mod Total
use device_phh_treble_doze.Base.{
  ℕ, zero, suc, ◌+◌, ◌-◌, ◌≤◌, ◌<◌, ◌≡◌, refl, sym, ◌∙◌, ap, Bool, true, false, not, ◌||◌, List, [],
  ◌∷◌, ◌++◌, Option, none, some, ltb, ◌==◌, arith, if◌then◌else◌, length, take, drop, min,
  length-append,
}

-- Whether the session is ready, what the queue offers, and whether the queue takes the transfer.
pub record WriteRound : Type 0 where
  pub ready : Bool
  pub available : ℕ
  pub transfers : Bool

-- The bytes that wait in the queue.
pub record ReadRound : Type 0 where
  pub ready : Bool
  pub waiting : List ℕ
  pub transfers : Bool

-- The count so far, the milliseconds left, and the bytes moved, in their order.
pub record Progress : Type 0 where
  pub total : ℕ
  pub timeout_ms : ℕ
  pub moved : List ℕ

pub data Verdict : Type 0 where
  stop go : Progress → Verdict

abbrev pub k_fmq_timeout_ms : ℕ
k_fmq_timeout_ms = 1000

-- What follows a transfer of the `count` bytes of `chunk`, and a queue that offers nothing.
abbrev pub transfer : Progress → Bool → ℕ → List ℕ → Verdict
transfer p accepted count chunk =
    if accepted then go (record p { total = p.total + count; moved = p.moved ++ chunk }) else stop p

abbrev pub wait : Progress → Verdict
wait p = if ltb p.timeout_ms 1 then stop p else go (record p { timeout_ms = p.timeout_ms - 1 })

unfoldable pub write_round : List ℕ → ℕ → WriteRound → Progress → Verdict
write_round buffer bytes r p =
    if not r.ready
    then stop p
    else if r.available == 0
    then wait p
    else (let count = min r.available (bytes - p.total) in
        transfer p r.transfers count (take count (drop p.total buffer)))

unfoldable pub read_round : ℕ → ReadRound → Progress → Verdict
read_round bytes r p =
    if not r.ready
    then stop p
    else if length r.waiting == 0
    then wait p
    else (let count = min (length r.waiting) (bytes - p.total) in
        transfer p r.transfers count (take count r.waiting))

-- The `do … while (total < bytes)` loop from round `n`; `none` means that the fuel ran out.
unfoldable pub pcm_loop : (ℕ → Progress → Verdict) → ℕ → ℕ → ℕ → Progress → Option Progress
pcm_loop round bytes zero n p = none
pcm_loop round bytes (suc fuel) n p = elim (round n p) [
  | stop q ↦ some q
  | go q ↦ elim (ltb q.total bytes) [ true ↦ pcm_loop round bytes fuel (n + 1) q | false ↦ some q ]
]

abbrev pub at_start : Progress
at_start = record { total = 0; timeout_ms = k_fmq_timeout_ms; moved = [] }

-- `none` as the buffer is the null pointer.
unfoldable pub out_write_pcm_data : (ℕ → WriteRound) → Option (List ℕ) → ℕ → Option Progress
out_write_pcm_data env none bytes = some at_start
out_write_pcm_data env (some buffer) bytes =
    if bytes == 0
    then some at_start
    else pcm_loop (λ n. write_round buffer bytes (env n)) bytes (bytes + 1001) 0 at_start

unfoldable pub in_read_pcm_data : (ℕ → ReadRound) → Bool → ℕ → Option Progress
in_read_pcm_data env has_buffer bytes =
    if not has_buffer || bytes == 0
    then some at_start
    else pcm_loop (λ n. read_round bytes (env n)) bytes (bytes + 1001) 0 at_start
