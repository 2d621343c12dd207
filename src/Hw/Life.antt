-- ===== src/Hw/Life.antt =====
-- What a stream promises, whatever the port does to keep it: one of five phases, moved by the
-- requests of its client, the replies of the stack and the parameters. It knows nothing of cookies,
-- sessions, locks and waiting.
use device_phh_treble_doze.Base.{◌≡◌, refl, Bool, true, false, ◌||◌, List, [], ◌∷◌, ◌++◌, arith}
use device_phh_treble_doze.Session.Types.{BluetoothAudioStatus, success, reconfiguration}

-- `moving true` waits for the reply to a start, `moving false` for that to a suspension.
pub data Phase : Type 0 where
  off quiet playing lost : Phase
  moving : Bool → Phase

-- `request true` asks for a start, `request false` for a suspension.
pub data Input : Type 0 where
  request : Bool → Input
  reply : BluetoothAudioStatus → Input
  switch_off switch_on : Input

unfoldable pub next : Phase → Input → Phase
next _ switch_off = off
next off switch_on = quiet
next quiet (request true) = moving true
next playing (request false) = moving false
next playing (reply success) = quiet
next playing (reply reconfiguration) = quiet
next (moving true) (reply success) = playing
next (moving true) (reply _) = quiet
next (moving false) (reply success) = quiet
next (moving false) (reply _) = off
next phase _ = phase

unfoldable pub run : Phase → List Input → Phase
run phase [] = phase
run phase (i ∷ is) = run (next phase i) is

pub run-append : (phase : Phase) (is js : List Input) → run phase (is ++ js) ≡ run (run phase is) js
unfolding run
run-append phase [] js = refl
run-append phase (i ∷ is) js = run-append (next phase i) is js

abbrev pub is_switch_on : Input → Bool
is_switch_on switch_on = true
is_switch_on _ = false

unfoldable pub has_switch_on : List Input → Bool
has_switch_on [] = false
has_switch_on (i ∷ is) = is_switch_on i || has_switch_on is

-- Nothing but `switch_on` leaves the phase `off`.
pub run-off : (is : List Input) → has_switch_on is ≡ false → run off is ≡ off
unfolding run next has_switch_on
run-off [] h = refl
run-off (request b ∷ is) h = run-off is h
run-off (reply s ∷ is) h = run-off is h
run-off (switch_off ∷ is) h = run-off is h
run-off (switch_on ∷ is) h = absurd (ground arith)

abbrev pub is_success : Input → Bool
is_success (reply success) = true
is_success _ = false

unfoldable pub has_success : List Input → Bool
has_success [] = false
has_success (i ∷ is) = is_success i || has_success is

abbrev pub is_playing : Phase → Bool
is_playing playing = true
is_playing _ = false

next-silent :
    (phase : Phase) (i : Input)
    → is_playing phase ≡ false
    → is_success i ≡ false
    → is_playing (next phase i) ≡ false
unfolding next
next-silent phase i h k = ground arith

-- Without a reply of success a stream that does not play never does.
pub run-silent :
    (phase : Phase) (is : List Input)
    → is_playing phase ≡ false
    → has_success is ≡ false
    → is_playing (run phase is) ≡ false
unfolding run has_success
run-silent phase [] h k = h
run-silent phase (i ∷ is) h k =
    run-silent (next phase i) is (next-silent phase i h (ground arith)) (ground arith)
