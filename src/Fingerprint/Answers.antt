-- ===== src/Fingerprint/Answers.antt =====
-- What hal/oplus-fp/BiometricsFingerprint.cpp tells its client.
use device_phh_treble_doze.Base.{
  ℕ, zero, suc, ◌+◌, ◌-◌, ◌≡◌, refl, ap, sym, arith, max, Bool, true, false, ◌||◌, List, [], ◌∷◌,
  ◌++◌, length, if◌then◌else◌,
}
use device_phh_treble_doze.Fingerprint.Filters.{
  canceled, RequestStatus, sys_ok, Notice, on_enumerate,
}
use device_phh_treble_doze.Fingerprint.Oplus.{
  Vendor, shared, oplus_to_aosp_acquired_info, oplus_to_aosp_error, oplus_to_aosp_request_status,
  Report, Wrapper, tell, is_canceled, on_report, on_reports, cancel, enumerate_known,
  own_enumeration, is_sys_ok, enumerate,
}
use device_phh_treble_doze.Fingerprint.Oplus as Oplus
use device_phh_treble_doze.Fingerprint.Filters as Filters

-- The cancellations among the reports, and among the notices.
abbrev pub tells_cancel : Notice → ℕ
tells_cancel (Filters.on_error device canceled code) = 1
tells_cancel _ = 0

abbrev pub cancels : List Notice → ℕ
cancels [] = 0
cancels (n ∷ ns) = tells_cancel n + cancels ns

abbrev pub reports_cancel : Report → ℕ
reports_cancel (Oplus.error device err code) = if is_canceled err then 1 else 0
reports_cancel _ = 0

abbrev pub reported_cancels : List Report → ℕ
reported_cancels [] = 0
reported_cancels (r ∷ rs) = reports_cancel r + reported_cancels rs

cancels-append : (xs ys : List Notice) → cancels (xs ++ ys) ≡ cancels xs + cancels ys
cancels-append [] ys = omega arith
cancels-append (x ∷ xs) ys = omega (arith, cancels-append xs ys)

abbrev is_positive : ℕ → Bool
is_positive zero = false
is_positive (suc n) = true

on_report_lem :
    (r : Report) (w : Wrapper)
    → (cancels (on_report r w).notices ≡ cancels w.notices + reports_cancel r)
      × ((on_report r w).received_cancel ≡ (is_positive (reports_cancel r) || w.received_cancel))
unfolding on_report oplus_to_aosp_error
on_report_lem (Oplus.enroll_result a b c d) w =
    (omega (arith, cancels-append w.notices (Filters.on_enroll_result a b c d ∷ [])), refl)
on_report_lem (Oplus.acquired a b c) w = (
  omega (
    arith,
    cancels-append w.notices (Filters.on_acquired a (oplus_to_aosp_acquired_info b) c ∷ []),
  ),
  refl,
)
on_report_lem (Oplus.authenticated a b c d) w =
    (omega (arith, cancels-append w.notices (Filters.on_authenticated a b c d ∷ [])), refl)
on_report_lem (Oplus.error a b c) w =
    let more = cancels-append w.notices (Filters.on_error a (oplus_to_aosp_error b) c ∷ []) in
    ground (arith, more)
on_report_lem (Oplus.removed a b c d) w =
    (omega (arith, cancels-append w.notices (Filters.on_removed a b c d ∷ [])), refl)
on_report_lem (Oplus.enumerated a b c d) w =
    (omega (arith, cancels-append w.notices (on_enumerate a b c d ∷ [])), refl)
on_report_lem (Oplus.sync_templates a b) w = (omega arith, refl)
on_report_lem Oplus.dropped w = (omega arith, refl)

on_reports_lem :
    (rs : List Report) (w : Wrapper)
    → (cancels (on_reports rs w).notices ≡ cancels w.notices + reported_cancels rs)
      × ((on_reports rs w).received_cancel
          ≡ (is_positive (reported_cancels rs) || w.received_cancel))
unfolding on_reports
on_reports_lem [] w = (omega arith, refl)
on_reports_lem (r ∷ rs) w = ground (arith, on_report_lem r w, on_reports_lem rs (on_report r w))

-- A cancellation is told to the client as often as the vendor reports it during the call, and once
-- when the vendor does not report it.
pub cancel_lem :
    (reports : List Report) (answer : Vendor RequestStatus) (w : Wrapper)
    → cancels (cancel reports answer w).0.notices
      ≡ cancels w.notices + max 1 (reported_cancels reports)
unfolding cancel
cancel_lem reports answer w =
    let v = on_reports reports (record w { received_cancel = false }) in
    let told = on_reports_lem reports (record w { received_cancel = false }) in
    ground (arith, told, cancels-append v.notices (Filters.on_error v.my_device_id canceled 0 ∷ []))

-- Each notice is of the device and of group 0, and says how many follow it.
abbrev pub IsCountdown : ℕ → List Notice → Type 0
IsCountdown own_device [] = Unit
IsCountdown own_device (on_enumerate device finger group remaining ∷ ns) =
    (device ≡ own_device) × (group ≡ 0) × (remaining ≡ length ns) × IsCountdown own_device ns
IsCountdown own_device (n ∷ ns) = ⊥

abbrev pub fingers_of : List Notice → List ℕ
fingers_of [] = []
fingers_of (on_enumerate device finger group remaining ∷ ns) = finger ∷ fingers_of ns
fingers_of (n ∷ ns) = fingers_of ns

enumerate_known_lem :
    (device : ℕ) (fingers : List ℕ)
    → (length (enumerate_known device (length fingers) fingers) ≡ length fingers)
      × IsCountdown device (enumerate_known device (length fingers) fingers)
      × (fingers_of (enumerate_known device (length fingers) fingers) ≡ fingers)
unfolding enumerate_known
enumerate_known_lem device [] = (refl, tt, refl)
enumerate_known_lem device (finger ∷ fingers) =
    let less : suc (length fingers) - 1 ≡ length fingers = omega arith in
    rw less (
      let (l, c, f) = enumerate_known_lem device fingers in
      (ap suc l, (refl, refl, sym l, c), ap (finger ∷◌) f))

-- The fingers that are known, or finger 0.
abbrev pub or_zero : List ℕ → List ℕ
or_zero [] = 0 ∷ []
or_zero (finger ∷ fingers) = finger ∷ fingers

own_lem :
    (v : Wrapper)
    → IsCountdown v.my_device_id (own_enumeration v)
      × (fingers_of (own_enumeration v) ≡ or_zero v.known_fingers)
unfolding own_enumeration
own_lem v = go v.known_fingers
  where
    go :
        (fs : List ℕ)
        → (let own : List Notice = elim fs [
          | [] ↦ on_enumerate v.my_device_id 0 0 0 ∷ []
          | finger ∷ fingers ↦
              enumerate_known v.my_device_id (length (finger ∷ fingers)) (finger ∷ fingers)
        ] in
            IsCountdown v.my_device_id own × (fingers_of own ≡ or_zero fs))
    go [] = ((refl, refl, refl, tt), refl)
    go (f ∷ fs) = let (l, c, same) = enumerate_known_lem v.my_device_id (f ∷ fs) in (c, same)

-- When the vendor accepts an enumeration and reports nothing of it, the client is told, after what
-- was reported, of all the fingers that are known, in their order, or of finger 0 alone when none is
-- known; each notice has the number of the device, group 0 and the number of those that follow it, so
-- the last one has 0.
pub enumerate_lem :
    (reports : List Report) (w : Wrapper)
    → (on_reports reports (record w { received_enumerate = false })).received_enumerate ≡ false
    → (let v = on_reports reports (record w { received_enumerate = false }) in
        (own : List Notice) × ((enumerate reports (shared sys_ok) w).0.notices ≡ v.notices ++ own)
        × IsCountdown v.my_device_id own
        × (fingers_of own ≡ or_zero v.known_fingers))
unfolding enumerate oplus_to_aosp_request_status own_enumeration
enumerate_lem reports w silent =
    let v = on_reports reports (record w { received_enumerate = false }) in
    let (countdown, fingers) = own_lem v in
    (own_enumeration v, ground (arith, silent), countdown, fingers)
