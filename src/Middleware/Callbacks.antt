-- ===== src/Middleware/Callbacks.antt =====
-- The table of HIDL callbacks in HidlToAidlMiddleware.cpp, for one session: `RegisterControlResultCback`,
-- `UnregisterControlResultCback` and the callbacks that the session gets.
use device_phh_treble_doze.Base.{ℕ, false, List, [], ◌∷◌, Option, none, some, ◌==◌, if◌then◌else◌}
use device_phh_treble_doze.Session.Types.{SessionType, PortStatusCallbacks, Session}
use device_phh_treble_doze.Session.Cookies.{register_status_cback, unregister_status_cback}

-- The HIDL callbacks are opaque.
abbrev pub Table : Type 0
Table = List (ℕ × ℕ)

pub record Bridge : Type 0 where
  pub session : Session
  pub table : Table

unfoldable pub find_callbacks : Table → ℕ → Option ℕ
find_callbacks [] cookie = none
find_callbacks ((c, cbacks) ∷ table) cookie =
    if c == cookie then some cbacks else find_callbacks table cookie

-- `table[cookie] = cbacks`.
unfoldable pub put_callbacks : Table → ℕ → ℕ → Table
put_callbacks [] cookie cbacks = (cookie, cbacks) ∷ []
put_callbacks ((c, old) ∷ table) cookie cbacks =
    if c == cookie then (c, cbacks) ∷ table else (c, old) ∷ put_callbacks table cookie cbacks

unfoldable pub erase_callbacks : Table → ℕ → Table
erase_callbacks [] cookie = []
erase_callbacks ((c, cbacks) ∷ table) cookie =
    if c == cookie then table else (c, cbacks) ∷ erase_callbacks table cookie

-- The AIDL callbacks that stand for HIDL ones; the optional ones are not set.
abbrev pub bridging : PortStatusCallbacks
bridging = record {
  has_audio_configuration_changed_cb = false;
  has_low_latency_mode_allowed_cb = false;
}

unfoldable pub register_control_result_cback : (SessionType → ℕ) → ℕ → Bridge → Bridge × ℕ
register_control_result_cback code cbacks b =
    let (s, cookie) = register_status_cback code b.session bridging in
    (record { session = s; table = put_callbacks b.table cookie cbacks }, cookie)

unfoldable pub unregister_control_result_cback : ℕ → Bridge → Bridge
unregister_control_result_cback cookie b = record {
  session = unregister_status_cback b.session cookie;
  table = erase_callbacks b.table cookie;
}

-- A callback of the session: the HIDL callbacks that it reaches, or none when the cookie is unknown.
unfoldable pub invoke : Bridge → ℕ → Option ℕ
invoke b cookie = find_callbacks b.table cookie
