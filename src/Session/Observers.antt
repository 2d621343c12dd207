-- ===== src/Session/Observers.antt =====
-- Registration of observers (`RegisterStatusCback` in BluetoothAudioSession.cpp).
use device_phh_treble_doze.Base.{
  ℕ, ◌+◌, ◌%◌, ◌≤◌, ◌<◌, zero, suc, ◌≡◌, refl, true, false, List, ◌∷◌, arith, ◌⊎◌, inl, inr,
  Bool-cases, leb, ltb, ◌&&◌, not,
}
use device_phh_treble_doze.Session.Types.{SessionType, PortStatusCallbacks, Session}
use device_phh_treble_doze.Session.Cookies.{
  cookie_init_value, cookie_upper_bound, cookie_undefined, cookie_session_type, is_registered,
  free_cookie, register_status_cback, erase, unregister_status_cback,
}

-- The loop ends at the first cookie that is free, or at the bound with all of them taken.
record IsFirstFree (obs : List (ℕ × PortStatusCallbacks)) (from upto c : ℕ) : Type 0 where
  above : from ≤ c
  below : c ≤ upto
  taken : (d : ℕ) → from ≤ d → d < c → is_registered obs d ≡ true
  is_free : c < upto → is_registered obs c ≡ false

free_cookie-IsFirstFree :
    (obs : List (ℕ × PortStatusCallbacks)) (left from upto : ℕ)
    → from + left ≡ upto
    → IsFirstFree obs from upto (free_cookie obs left from)
unfolding free_cookie
free_cookie-IsFirstFree obs zero from upto e = record {
  above = omega arith;
  below = omega arith;
  taken = λ d x y. absurd (omega arith);
  is_free = λ x. absurd (omega arith);
}
free_cookie-IsFirstFree obs (suc left) from upto e = elim (Bool-cases (is_registered obs from)) [
  | inl used ↦ rw used (skip used (free_cookie-IsFirstFree obs left (from + 1) upto (omega arith)))
  | inr unused ↦ rw unused (record {
    above = omega arith;
    below = omega arith;
    taken = λ d x y. absurd (omega arith);
    is_free = λ x. unused;
  })
]
  where
    skip :
        {c : ℕ}
        → is_registered obs from ≡ true
        → IsFirstFree obs (from + 1) upto c
        → IsFirstFree obs from upto c
    skip used h = record {
      above = omega arith;
      below = h.below;
      taken = λ d x y. ground (arith, h.taken d);
      is_free = h.is_free;
    }

module _ (code : SessionType → ℕ) (s : Session) (callbacks : PortStatusCallbacks) where
  pub registration :
      let (s', cookie) = register_status_cback code s callbacks in
      let first = cookie_init_value code s.session_type in
      ((s' ≡ s)
        × (cookie ≡ cookie_undefined code)
        × ((d : ℕ) → first ≤ d → d < first + 16 → is_registered s.observers d ≡ true))
      ⊎ ((s'.observers ≡ (cookie, callbacks) ∷ s.observers)
          × (is_registered s.observers cookie ≡ false)
          × ((d : ℕ) → first ≤ d → d < cookie → is_registered s.observers d ≡ true)
          × (cookie_session_type cookie ≡ code s.session_type % 256)
          × (unregister_status_cback s' cookie ≡ s))
  unfolding register_status_cback cookie_init_value cookie_upper_bound cookie_session_type
      unregister_status_cback erase
  registration =
      let first = cookie_init_value code s.session_type in
      let h = free_cookie-IsFirstFree s.observers 16 first (first + 16) refl in
      elim (Bool-cases (leb (first + 16) (free_cookie s.observers 16 first))) [
        | inl full ↦ inl (ground arith, ground arith, λ d x y. ground (arith, h.taken d))
        | inr room ↦ inr (
          ground arith,
          ground arith,
          λ d x y. ground (arith, h.taken d),
          ground arith,
          ground arith,
        )
      ]

-- Registration either finds all 16 cookies of the session's type in use, leaves the session as it
-- was and returns the undefined cookie, or it adds the callbacks under the first cookie that was
-- free. That cookie carries the type of the session, and to unregister it gives the session back.
-- Here `i` is any of the 16 places.
pub register_lem :
    (code : SessionType → ℕ) (s : Session) (callbacks : PortStatusCallbacks) (i : ℕ)
    → i < 16
    → let (s', cookie) = register_status_cback code s callbacks in
      let candidate = cookie_init_value code s.session_type + i in
      ((s' ≡ s) × (cookie ≡ cookie_undefined code) × (is_registered s.observers candidate ≡ true))
      ⊎ ((s'.observers ≡ (cookie, callbacks) ∷ s.observers)
          × (is_registered s.observers cookie ≡ false)
          × ((ltb candidate cookie && not (is_registered s.observers candidate)) ≡ false)
          × (cookie_session_type cookie ≡ code s.session_type % 256)
          × (unregister_status_cback s' cookie ≡ s))
register_lem code s callbacks i below = elim (registration code s callbacks) [
  | inl (same, undefined, full) ↦ inl (same, undefined, full _ (omega arith) (omega arith))
  | inr (added, fresh, first, typed, back) ↦
      inr (
        added,
        fresh,
        ground (arith, first (cookie_init_value code s.session_type + i)),
        typed,
        back,
      )
]
