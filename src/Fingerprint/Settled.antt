-- ===== src/Fingerprint/Settled.antt =====
-- What the queue of hal/anakin-fp/BiometricsFingerprint.cpp keeps while the mutex is free.
use device_phh_treble_doze.Base.{
  ℕ, zero, suc, ◌≡◌, refl, subst, arith, Bool, true, false, not, ◌&&◌, ◌||◌, List, [], ◌∷◌, ◌++◌,
  Option, none, some, All,
}
use device_phh_treble_doze.Fingerprint.Goodix.{
  Command, finger_down, finger_up, light_area_stable, light_area_close, GoodixCommand, Sent, Sensor,
  is_out_of_place, enqueue_goodix_command, is_finger_up, send_command, serve, at, without,
}

-- A command that the queue holds is of the present state of the finger.
abbrev pub belongs : Command → Bool → Bool
belongs finger_down is_down = is_down
belongs finger_up is_down = not is_down
belongs c is_down = not (is_out_of_place c is_down)

abbrev pub IsCurrent : ℕ → Bool → GoodixCommand → Type 0
IsCurrent sequence is_down c = (c.sequence ≡ sequence) × (belongs c.command is_down ≡ true)

abbrev pub has_finger_up : List GoodixCommand → Bool
has_finger_up [] = false
has_finger_up (c ∷ cs) = is_finger_up c.command || has_finger_up cs

-- What is sent that the light is stable or that the finger is down is sent with the finger down and
-- the bright display requested; what is sent of a lifted finger, with the finger up.
abbrev pub IsFitting : Sent → Type 0
IsFitting c =
    (belongs c.command c.while_down ≡ true) × ((c.while_down && not c.while_requested) ≡ false)

abbrev pub is_light : Command → Bool
is_light light_area_stable = true
is_light light_area_close = true
is_light _ = false

abbrev pub IsLight : GoodixCommand → Type 0
IsLight c = is_light c.command ≡ true

abbrev pub IsLightCommand : Command → Type 0
IsLightCommand c = is_light c ≡ true

-- While no call of the finger is under way, the queue holds commands of the present state of the
-- finger only; the bright display is requested while the finger is down; and when it is requested with
-- the finger up, the command that ends this is on its way.
abbrev pub IsSettled : Sensor → Type 0
IsSettled s =
    All (IsCurrent s.sequence s.is_down) s.queue
    × ((s.is_down && not s.hbm_requested) ≡ false)
    × ((s.hbm_requested && (not s.is_down && not (has_finger_up s.queue))) ≡ false)
    × All IsFitting s.sent
    × All IsLightCommand s.armed
    × All IsLight s.calling

pub All-snoc {ℓ κ} :
    {A : Type ℓ} (P : A → Type κ) (xs : List A) (x : A) → All P xs → P x → All P (xs ++ x ∷ [])
All-snoc P [] x h p = (p, tt)
All-snoc P (y ∷ ys) x (h, hs) p = (h, All-snoc P ys x hs p)

pub All-without {ℓ κ} :
    {A : Type ℓ} (P : A → Type κ) (xs : List A) (n : ℕ) → All P xs → All P (without xs n)
All-without P [] n h = h
All-without P (x ∷ xs) zero h = h.1
All-without P (x ∷ xs) (suc n) (h, hs) = (h, All-without P xs n hs)

-- What the entry named has.
abbrev pub Holds {ℓ κ} : {A : Type ℓ} → (A → Type κ) → Option A → Type κ
Holds P none = Unit
Holds P (some x) = P x

pub All-at {ℓ κ} :
    {A : Type ℓ} (P : A → Type κ) (xs : List A) (n : ℕ) → All P xs → Holds P (at xs n)
All-at P [] n h = tt
All-at P (x ∷ xs) zero h = h.0
All-at P (x ∷ xs) (suc n) (h, hs) = All-at P xs n hs

has_finger_up-snoc :
    (cs : List GoodixCommand) (c : GoodixCommand)
    → has_finger_up (cs ++ c ∷ []) ≡ (has_finger_up cs || is_finger_up c.command)
has_finger_up-snoc [] c = ground arith
has_finger_up-snoc (d ∷ cs) c = ground (arith, has_finger_up-snoc cs c)

light-belongs :
    (c : Command) (is_down : Bool)
    → is_light c ≡ true
    → is_out_of_place c is_down ≡ false
    → belongs c is_down ≡ true
unfolding is_out_of_place
light-belongs light_area_stable is_down h o = ground arith
light-belongs light_area_close is_down h o = ground arith
light-belongs finger_down is_down h o = ground arith
light-belongs finger_up is_down h o = ground arith

pub enqueue-IsSettled :
    (c : GoodixCommand) (s : Sensor)
    → IsLight c
    → IsSettled s
    → IsSettled (enqueue_goodix_command c s)
unfolding enqueue_goodix_command
enqueue-IsSettled c s light (q, b, e, f, a, l) = grind (
  arith,
  All-snoc (IsCurrent s.sequence s.is_down) s.queue c q,
  light-belongs c.command s.is_down light,
  has_finger_up-snoc s.queue c,
)

send-IsSettled :
    (c : Command) (s : Sensor)
    → belongs c s.is_down ≡ true
    → All (IsCurrent s.sequence s.is_down) s.queue
    → ((s.is_down && not s.hbm_requested) ≡ false)
    → ((s.hbm_requested && (not s.is_down && not (is_finger_up c || has_finger_up s.queue)))
        ≡ false)
    → All IsFitting s.sent
    → All IsLightCommand s.armed
    → All IsLight s.calling
    → IsSettled (send_command c s)
unfolding send_command is_out_of_place
send-IsSettled finger_down s h q b e f a l = (q, b, e, ((h, b), f), a, l)
send-IsSettled finger_up s h q b e f a l = (q, ground arith, refl, ((h, b), f), a, l)
send-IsSettled light_area_stable s h q b e f a l = (q, b, e, ((h, b), f), a, l)
send-IsSettled light_area_close s h q b e f a l = (q, b, e, ((h, b), f), a, l)

belongs-place :
    (c : Command) (is_down : Bool) → belongs c is_down ≡ true → is_out_of_place c is_down ≡ false
unfolding is_out_of_place
belongs-place finger_down is_down h = refl
belongs-place finger_up is_down h = refl
belongs-place light_area_stable is_down h = ground arith
belongs-place light_area_close is_down h = ground arith

pub serve-IsSettled :
    (s : Sensor) (cs : List GoodixCommand) → s.queue ≡ cs → IsSettled s → IsSettled (serve cs s)
unfolding serve
serve-IsSettled s [] same h = h
serve-IsSettled s (c ∷ cs) same (q, b, e, f, a, l) =
    let (here, rest) : All (IsCurrent s.sequence s.is_down) (c ∷ cs) =
      subst (All (IsCurrent s.sequence s.is_down)) same q in
    let ends : (s.hbm_requested && (not s.is_down && not (has_finger_up (c ∷ cs)))) ≡ false =
      subst (λ t. (s.hbm_requested && (not s.is_down && not (has_finger_up t))) ≡ false) same e in
    ground (
      arith,
      here,
      belongs-place c.command s.is_down here.1,
      send-IsSettled c.command (record s { queue = cs }) here.1 rest b ends f a l,
    )
