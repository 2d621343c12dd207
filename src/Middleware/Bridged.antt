-- ===== src/Middleware/Bridged.antt =====
-- Every observer that is registered through HidlToAidlMiddleware.cpp reaches HIDL callbacks.
use device_phh_treble_doze.Base.{
  ℕ, ◌≡◌, ◌≢◌, ◌⊎◌, inl, inr, refl, ap, sym, subst, arith, Bool, true, false, List, [], ◌∷◌, Option,
  none, some, ◌==◌, if◌then◌else◌,
}
use device_phh_treble_doze.Session.Trace.{Distinct, erase-Distinct}
use device_phh_treble_doze.Session.Types.{
  DataMq, AudioConfiguration, LatencyMode, SessionType, PortStatusCallbacks, Session,
}
use device_phh_treble_doze.Session.State.{
  on_session_started, on_session_ended, report_audio_config_changed,
  report_low_latency_mode_allowed_changed, update_audio_config, update_data_path,
}
use device_phh_treble_doze.Session.Cookies.{
  is_registered, erase, register_status_cback, unregister_status_cback,
}
use device_phh_treble_doze.Session.Observers.{registration}
use device_phh_treble_doze.Middleware.Callbacks.{
  Table, Bridge, find_callbacks, put_callbacks, erase_callbacks, bridging,
  register_control_result_cback, unregister_control_result_cback, invoke,
}

abbrev pub is_some : Option ℕ → Bool
is_some none = false
is_some (some n) = true

-- Each cookie has one observer, and its callbacks are in the table.
abbrev pub IsBridged : Bridge → Type 0
IsBridged b =
    Distinct b.session.observers
    × ((d : ℕ) → is_registered b.session.observers d ≡ true → is_some (invoke b d) ≡ true)

find-put :
    (t : Table) (c cb d : ℕ)
    → find_callbacks (put_callbacks t c cb) d ≡ (if c == d then some cb else find_callbacks t d)
unfolding find_callbacks put_callbacks
find-put [] c cb d = refl
find-put ((k, old) ∷ t) c cb d = ground (arith, find-put t c cb d)

find-erase :
    (t : Table) (c d : ℕ) → c ≢ d → find_callbacks (erase_callbacks t c) d ≡ find_callbacks t d
unfolding find_callbacks erase_callbacks
find-erase [] c d h = refl
find-erase ((k, cb) ∷ t) c d h = ground (arith, find-erase t c d h)

-- What is registered after an erasure was registered before it, and is not what was erased.
kept-erase :
    (obs : List (ℕ × PortStatusCallbacks)) (c d : ℕ)
    → Distinct obs
    → is_registered (erase obs c) d ≡ true
    → (c ≢ d) × (is_registered obs d ≡ true)
unfolding is_registered erase
kept-erase [] c d h r = absurd (ground arith)
kept-erase ((k, cb) ∷ obs) c d (fresh, h) r = grind (arith, fresh, kept-erase obs c d h)

-- A client registers HIDL callbacks or a cookie is unregistered; the stack starts and ends the
-- session and changes it.
pub data BridgeEvent : Type 0 where
  registers unregisters : ℕ → BridgeEvent
  starts : Option ℕ → Option DataMq → AudioConfiguration → List LatencyMode → BridgeEvent
  ends : BridgeEvent
  changes_config : AudioConfiguration → BridgeEvent
  allows_low_latency : Bool → BridgeEvent

unfoldable pub bridge_step : (SessionType → ℕ) → BridgeEvent → Bridge → Bridge
bridge_step code (registers cbacks) b = (register_control_result_cback code cbacks b).0
bridge_step code (unregisters cookie) b = unregister_control_result_cback cookie b
bridge_step code (starts iface mq config modes) b = record b {
  session = (on_session_started b.session iface mq config modes).0;
}
bridge_step code ends b = record b { session = (on_session_ended b.session).0 }
bridge_step code (changes_config config) b = record b {
  session = (report_audio_config_changed b.session config).0;
}
bridge_step code (allows_low_latency allowed) b = record b {
  session = (report_low_latency_mode_allowed_changed b.session allowed).0;
}

unfoldable pub bridge_run : (SessionType → ℕ) → List BridgeEvent → Bridge → Bridge
bridge_run code [] b = b
bridge_run code (e ∷ es) b = bridge_run code es (bridge_step code e b)

-- The same observers.
keeps :
    (b : Bridge) (s : Session)
    → s.observers ≡ b.session.observers
    → IsBridged b
    → IsBridged (record b { session = s })
unfolding invoke
keeps b s same (distinct, found) =
    subst (λ o. Distinct o × ((d : ℕ) → is_registered o d ≡ true → is_some (invoke b d) ≡ true))
      (sym same) (distinct, found)

started_observers :
    (s : Session) (iface : Option ℕ) (mq : Option DataMq) (config : AudioConfiguration)
    (modes : List LatencyMode)
    → (on_session_started s iface mq config modes).0.observers ≡ s.observers
unfolding on_session_started update_audio_config update_data_path
started_observers s none mq config modes = refl
started_observers s (some iface) mq config modes = ground arith

-- What `find` sees after `put` was there or is new.
found-put :
    (t : Table) (c cb d : ℕ)
    → (c ≢ d → is_some (find_callbacks t d) ≡ true)
    → is_some (find_callbacks (put_callbacks t c cb) d) ≡ true
found-put t c cb d h = grind (arith, find-put t c cb d)

abbrev Added : Bridge → Session → ℕ → Type 0
Added b s cookie =
    (s.observers ≡ b.session.observers)
    ⊎ ((s.observers ≡ (cookie, bridging) ∷ b.session.observers)
        × (is_registered b.session.observers cookie ≡ false))

put-IsBridged :
    (b : Bridge) (s : Session) (cookie cbacks : ℕ)
    → Added b s cookie
    → IsBridged b
    → IsBridged (record { session = s; table = put_callbacks b.table cookie cbacks })
unfolding is_registered invoke
put-IsBridged b s cookie cbacks (inl same) (distinct, found) =
    keeps (record b { table = put_callbacks b.table cookie cbacks }) s same
      (distinct, λ d r. found-put b.table cookie cbacks d (λ x. found d r))
put-IsBridged b s cookie cbacks (inr (same, fresh)) (distinct, found) =
    keeps
      (record {
        session = record b.session { observers = (cookie, bridging) ∷ b.session.observers };
        table = put_callbacks b.table cookie cbacks;
      })
      s same
      (
        (fresh, distinct),
        λ d r. found-put b.table cookie cbacks d (λ x. ground (arith, r, found d)),
      )

registers-IsBridged :
    (code : SessionType → ℕ) (b : Bridge) (cbacks : ℕ)
    → IsBridged b
    → IsBridged (register_control_result_cback code cbacks b).0
unfolding register_control_result_cback
registers-IsBridged code b cbacks h =
    let (s, cookie) = register_status_cback code b.session bridging in
    put-IsBridged b s cookie cbacks
      (elim (registration code b.session bridging) [
        | inl (same, undefined, full) ↦ inl (ap (λ t. t.observers) same)
        | inr (added, fresh, first, typed, back) ↦ inr (added, fresh)
      ])
      h

unregisters-IsBridged :
    (b : Bridge) (cookie : ℕ) → IsBridged b → IsBridged (unregister_control_result_cback cookie b)
unfolding unregister_control_result_cback unregister_status_cback invoke
unregisters-IsBridged b cookie (distinct, found) = (
  erase-Distinct b.session.observers cookie distinct,
  λ d r. grind (
    arith,
    kept-erase b.session.observers cookie d distinct r,
    found d,
    find-erase b.table cookie d,
  ),
)

bridge_step-IsBridged :
    (code : SessionType → ℕ) (e : BridgeEvent) (b : Bridge)
    → IsBridged b
    → IsBridged (bridge_step code e b)
unfolding bridge_step on_session_ended update_data_path report_audio_config_changed
    report_low_latency_mode_allowed_changed
bridge_step-IsBridged code (registers cbacks) b h = registers-IsBridged code b cbacks h
bridge_step-IsBridged code (unregisters cookie) b h = unregisters-IsBridged b cookie h
bridge_step-IsBridged code (starts iface mq config modes) b h =
    keeps b (on_session_started b.session iface mq config modes).0
      (started_observers b.session iface mq config modes) h
bridge_step-IsBridged code ends b h = keeps b (on_session_ended b.session).0 (ground arith) h
bridge_step-IsBridged code (changes_config config) b h =
    keeps b (report_audio_config_changed b.session config).0 (ground arith) h
bridge_step-IsBridged code (allows_low_latency allowed) b h =
    keeps b (report_low_latency_mode_allowed_changed b.session allowed).0 (ground arith) h

-- Whatever clients register and unregister through the middleware, each call a step of its own, and
-- whatever the stack does to the session, from a bridge of which this holds: no two observers of the
-- session share a cookie, and a callback of any of them finds HIDL callbacks in the table.
pub bridge_run_lem :
    (code : SessionType → ℕ) (es : List BridgeEvent) (b : Bridge)
    → IsBridged b
    → IsBridged (bridge_run code es b)
unfolding bridge_run
bridge_run_lem code [] b h = h
bridge_run_lem code (e ∷ es) b h =
    bridge_run_lem code es (bridge_step code e b) (bridge_step-IsBridged code e b h)
