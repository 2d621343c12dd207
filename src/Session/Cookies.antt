-- ===== src/Session/Cookies.antt =====
-- BluetoothAudioSession.h and .cpp: the cookies of observers, and their registration. The numeric
-- value of a session type is a parameter `code`.
use device_phh_treble_doze.Base.{
  ℕ, ◌+◌, ◌*◌, ◌/◌, ◌%◌, zero, suc, Bool, false, ◌||◌, List, [], ◌∷◌, ◌==◌, leb, if◌then◌else◌,
}
use device_phh_treble_doze.Session.Types.{SessionType, unknown, PortStatusCallbacks, Session}

abbrev pub k_observers_cookie_size : ℕ
k_observers_cookie_size = 16

-- `x << 8 & 0xff00` of a `uint16_t` is its low byte times 256.
unfoldable pub cookie_init_value : (SessionType → ℕ) → SessionType → ℕ
cookie_init_value code t = code t % 256 * 256

unfoldable pub cookie_upper_bound : (SessionType → ℕ) → SessionType → ℕ
cookie_upper_bound code t = code t % 256 * 256 + k_observers_cookie_size

unfoldable pub cookie_undefined : (SessionType → ℕ) → ℕ
cookie_undefined code = code unknown % 256 * 256

-- `cookie >> 8 & 0x00ff`, the value of the session type.
unfoldable pub cookie_session_type : ℕ → ℕ
cookie_session_type cookie = cookie / 256 % 256

-- `observers_.find(cookie) != observers_.end()`.
unfoldable pub is_registered : List (ℕ × PortStatusCallbacks) → ℕ → Bool
is_registered [] cookie = false
is_registered ((c, cb) ∷ obs) cookie = c == cookie || is_registered obs cookie

-- The `while` loop of `RegisterStatusCback`, with `left` cookies to the upper bound.
unfoldable pub free_cookie : List (ℕ × PortStatusCallbacks) → ℕ → ℕ → ℕ
free_cookie obs zero cookie = cookie
free_cookie obs (suc left) cookie =
    let rest = free_cookie obs left (cookie + 1) in
    if is_registered obs cookie then rest else cookie

unfoldable pub register_status_cback :
    (SessionType → ℕ) → Session → PortStatusCallbacks → Session × ℕ
register_status_cback code s callbacks =
    let cookie =
      free_cookie s.observers k_observers_cookie_size (cookie_init_value code s.session_type) in
    if leb (cookie_upper_bound code s.session_type) cookie
    then (s, cookie_undefined code)
    else (record s { observers = (cookie, callbacks) ∷ s.observers }, cookie)

-- `observers_.erase(cookie)`.
unfoldable pub erase : List (ℕ × PortStatusCallbacks) → ℕ → List (ℕ × PortStatusCallbacks)
erase [] cookie = []
erase ((c, cb) ∷ obs) cookie = if c == cookie then obs else (c, cb) ∷ erase obs cookie

unfoldable pub unregister_status_cback : Session → ℕ → Session
unregister_status_cback s cookie = record s { observers = erase s.observers cookie }
