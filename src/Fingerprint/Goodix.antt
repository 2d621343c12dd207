-- ===== src/Fingerprint/Goodix.antt =====
-- The threads of hal/anakin-fp/BiometricsFingerprint.cpp that talk to the Goodix daemon: the finger,
-- the queue of commands, and the two sources of the command that the light is stable. A step is one
-- access to an atomic variable, or what happens under the mutex to what only its holder touches.
use device_phh_treble_doze.Base.{
  ℕ, zero, suc, ◌+◌, ◌-◌, Bool, true, false, not, List, [], ◌∷◌, ◌++◌, Option, none, some, ◌==◌,
  if◌then◌else◌,
}

-- `CMD_FINGER_DOWN`, `CMD_FINGER_UP`, `CMD_LIGHT_AREA_STABLE` and `CMD_LIGHT_AREA_CLOSE`.
pub data Command : Type 0 where
  finger_down finger_up light_area_stable light_area_close : Command

pub record GoodixCommand : Type 0 where
  pub sequence : ℕ
  pub command : Command

-- A command that the daemon has got, with the state of the finger and the last request to the display
-- at that time.
pub record Sent : Type 0 where
  pub command : Command
  pub while_down : Bool
  pub while_requested : Bool

-- Where a call of the finger stands that holds the mutex: what it does next.
pub data Stage : Type 0 where
  counts stores_finger resets_light clears_queue requests_hbm pushes : Stage

-- Who holds the mutex between two steps. The thread of commands and `enqueueGoodixCommand` hold it
-- within one step: what they read is written under the mutex only.
pub data Holder : Type 0 where
  free : Holder
  pressing lifting : Stage → Holder

-- `is_down` is `mFingerDown`, `sequence` is `mFingerSequence`, and `hbm_requested` the last request for
-- the bright display; whether the display follows is not part of the state. The other threads are
-- where they stand: `waiting` for the display with the sequence of their press, having `seen` the
-- finger down, having `checked` the sequence too; the spot node has been `lit`, and its thread has seen
-- the finger down; `unlit`, and it has reset the flag; `armed` to read the sequence; and `calling`
-- `enqueueGoodixCommand` with what they have read.
pub record Sensor : Type 0 where
  pub holder : Holder
  pub sequence : ℕ
  pub is_down : Bool
  pub light_area_is_stable : Bool
  pub queue : List GoodixCommand
  pub hbm_requested : Bool
  pub waiting : List ℕ
  pub seen : List ℕ
  pub checked : List ℕ
  pub lit : ℕ
  pub unlit : ℕ
  pub armed : List Command
  pub calling : List GoodixCommand
  pub sent : List Sent

abbrev pub new_sensor : Sensor
new_sensor = record {
  holder = free;
  sequence = 0;
  is_down = false;
  light_area_is_stable = false;
  queue = [];
  hbm_requested = false;
  waiting = [];
  seen = [];
  checked = [];
  lit = 0;
  unlit = 0;
  armed = [];
  calling = [];
  sent = [];
}

-- The start of `onFingerDown`: it takes the mutex, or waits for it, which changes nothing.
unfoldable pub on_finger_down : Sensor → Sensor
on_finger_down s = elim s.holder [
  | free ↦ record s { holder = pressing counts }
  | pressing stage ↦ s
  | lifting stage ↦ s
]

-- The start of `onFingerUp`.
unfoldable pub on_finger_up : Sensor → Sensor
on_finger_up s = elim s.holder [
  | free ↦ if not s.is_down then s else record s { holder = lifting counts }
  | pressing stage ↦ s
  | lifting stage ↦ s
]

-- The next of the stores of `onFingerDown`; the last one gives the mutex back and leaves a thread that
-- waits for the display.
unfoldable pub press : Stage → Sensor → Sensor
press counts s = record s { holder = pressing stores_finger; sequence = s.sequence + 1 }
press stores_finger s = record s { holder = pressing resets_light; is_down = true }
press resets_light s = record s { holder = pressing clears_queue; light_area_is_stable = false }
press clears_queue s = record s { holder = pressing requests_hbm; queue = [] }
press requests_hbm s = record s { holder = pressing pushes; hbm_requested = true }
press pushes s = record s {
  holder = free;
  queue = s.queue ++ record { sequence = s.sequence; command = finger_down } ∷ [];
  waiting = s.sequence ∷ s.waiting;
}

unfoldable pub lift : Stage → Sensor → Sensor
lift counts s = record s { holder = lifting stores_finger; sequence = s.sequence + 1 }
lift stores_finger s = record s { holder = lifting resets_light; is_down = false }
lift resets_light s = record s { holder = lifting clears_queue; light_area_is_stable = false }
lift clears_queue s = record s { holder = lifting pushes; queue = [] }
lift requests_hbm s = s
lift pushes s = record s {
  holder = free;
  queue = s.queue ++ record { sequence = s.sequence; command = finger_up } ∷ [];
}

unfoldable pub proceed : Sensor → Sensor
proceed s = elim s.holder [
  | free ↦ s
  | pressing stage ↦ press stage s
  | lifting stage ↦ lift stage s
]

-- Whether the state of the finger speaks against a command.
unfoldable pub is_out_of_place : Command → Bool → Bool
is_out_of_place light_area_stable is_down = not is_down
is_out_of_place light_area_close is_down = is_down
is_out_of_place _ is_down = false

unfoldable pub enqueue_goodix_command : GoodixCommand → Sensor → Sensor
enqueue_goodix_command c s =
    if not (c.sequence == s.sequence)
    then s
    else if is_out_of_place c.command s.is_down
    then s
    else record s { queue = s.queue ++ c ∷ [] }

abbrev pub is_finger_up : Command → Bool
is_finger_up finger_up = true
is_finger_up _ = false

unfoldable pub send_command : Command → Sensor → Sensor
send_command c s = record s {
  sent = record { command = c; while_down = s.is_down; while_requested = s.hbm_requested } ∷ s.sent;
  hbm_requested = if is_finger_up c then false else s.hbm_requested;
}

-- A round of the thread of commands, which holds the mutex.
unfoldable pub serve : List GoodixCommand → Sensor → Sensor
serve [] s = s
serve (c ∷ cs) s =
    let t : Sensor = record s { queue = cs } in
    if not (c.sequence == s.sequence)
    then t
    else if is_out_of_place c.command s.is_down
    then t
    else send_command c.command t

-- The thread that watches the spot node: its first access after `readBool`, the load of the finger or
-- the store of the flag.
unfoldable pub on_spot : Bool → Sensor → Sensor
on_spot true s = if s.is_down then record s { lit = s.lit + 1 } else s
on_spot false s = record s { light_area_is_stable = false; unlit = s.unlit + 1 }

-- Its `mLightAreaStable.exchange(true)`.
unfoldable pub exchange_spot : Sensor → Sensor
exchange_spot s =
    if s.lit == 0
    then s
    else if s.light_area_is_stable
    then record s { lit = s.lit - 1 }
    else record s {
      lit = s.lit - 1;
      light_area_is_stable = true;
      armed = light_area_stable ∷ s.armed;
    }

-- Its load of the finger when the node is not ready.
unfoldable pub close_spot : Sensor → Sensor
close_spot s =
    if s.unlit == 0
    then s
    else if s.is_down
    then record s { unlit = s.unlit - 1 }
    else record s { unlit = s.unlit - 1; armed = light_area_close ∷ s.armed }

-- After `waitForHbm`, achieved or not, the load of the finger.
unfoldable pub check_finger : ℕ → Sensor → Sensor
check_finger sequence s = if s.is_down then record s { seen = sequence ∷ s.seen } else s

-- The load of the sequence.
unfoldable pub check_sequence : ℕ → Sensor → Sensor
check_sequence sequence s =
    if s.sequence == sequence then record s { checked = sequence ∷ s.checked } else s

-- `mLightAreaStable.exchange(true)` of a thread that has checked.
unfoldable pub exchange : ℕ → Sensor → Sensor
exchange sequence s = if s.light_area_is_stable then s else record s {
  light_area_is_stable = true;
  calling = record { sequence = sequence; command = light_area_stable } ∷ s.calling;
}

abbrev pub at {ℓ} : {A : Type ℓ} → List A → ℕ → Option A
at [] n = none
at (x ∷ xs) zero = some x
at (x ∷ xs) (suc n) = at xs n

abbrev pub without {ℓ} : {A : Type ℓ} → List A → ℕ → List A
without [] n = []
without (x ∷ xs) zero = xs
without (x ∷ xs) (suc n) = x ∷ without xs n

-- The next step of a thread; threads are named by their place in their list.
pub data Step : Type 0 where
  touches lifts proceeds serves exchanges_spot closes_spot : Step
  spots : Bool → Step
  checks compares exchanges loads enqueues : ℕ → Step

-- A step that needs the mutex.
abbrev pub when_free : Holder → Sensor → Sensor → Sensor
when_free free s t = t
when_free _ s t = s

unfoldable pub sensor_step : Step → Sensor → Sensor
sensor_step touches s = on_finger_down s
sensor_step lifts s = on_finger_up s
sensor_step proceeds s = proceed s
sensor_step serves s = when_free s.holder s (serve s.queue s)
sensor_step (spots ready) s = on_spot ready s
sensor_step exchanges_spot s = exchange_spot s
sensor_step closes_spot s = close_spot s
sensor_step (checks n) s = elim (at s.waiting n) [
  | none ↦ s
  | some sequence ↦ check_finger sequence (record s { waiting = without s.waiting n })
]
sensor_step (compares n) s = elim (at s.seen n) [
  | none ↦ s
  | some sequence ↦ check_sequence sequence (record s { seen = without s.seen n })
]
sensor_step (exchanges n) s = elim (at s.checked n) [
  | none ↦ s
  | some sequence ↦ exchange sequence (record s { checked = without s.checked n })
]
sensor_step (loads n) s = elim (at s.armed n) [
  | none ↦ s
  | some c ↦ record s {
    armed = without s.armed n;
    calling = record { sequence = s.sequence; command = c } ∷ s.calling;
  }
]
sensor_step (enqueues n) s = when_free s.holder s (elim (at s.calling n) [
  | none ↦ s
  | some c ↦ enqueue_goodix_command c (record s { calling = without s.calling n })
])

unfoldable pub sensor_run : List Step → Sensor → Sensor
sensor_run [] s = s
sensor_run (e ∷ es) s = sensor_run es (sensor_step e s)
