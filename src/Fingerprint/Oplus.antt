-- ===== src/Fingerprint/Oplus.antt =====
-- hal/oplus-fp/BiometricsFingerprint.cpp, and hal/oppo-fp, which is the same code over another
-- vendor interface: the calls are passed on, and a cancellation and an enumeration that the vendor
-- does not report are reported by the wrapper.
use device_phh_treble_doze.Base.{
  ℕ, ◌-◌, Bool, true, false, not, ◌&&◌, List, [], ◌∷◌, ◌++◌, length, if◌then◌else◌,
}
use device_phh_treble_doze.Fingerprint.Filters.{
  AcquiredInfo, good, FingerprintError, no_error, canceled, RequestStatus, sys_unknown, sys_ok,
  Notice, on_enroll_result, on_acquired, on_authenticated, on_error, on_removed, on_enumerate,
}

-- The values of the vendor's enumerations: those of the framework, and others.
pub data Vendor {ℓ} (A : Type ℓ) : Type ℓ where
  shared : A → Vendor A
  vendor_only : ℕ → Vendor A

unfoldable pub oplus_to_aosp_acquired_info : Vendor AcquiredInfo → AcquiredInfo
oplus_to_aosp_acquired_info (shared info) = info
oplus_to_aosp_acquired_info (vendor_only n) = good

unfoldable pub oplus_to_aosp_error : Vendor FingerprintError → FingerprintError
oplus_to_aosp_error (shared error) = error
oplus_to_aosp_error (vendor_only n) = no_error

unfoldable pub oplus_to_aosp_request_status : Vendor RequestStatus → RequestStatus
oplus_to_aosp_request_status (shared status) = status
oplus_to_aosp_request_status (vendor_only n) = sys_unknown

-- What the vendor reports. The reports that are dropped are one.
pub data Report : Type 0 where
  enroll_result : ℕ → ℕ → ℕ → ℕ → Report
  acquired : ℕ → Vendor AcquiredInfo → ℕ → Report
  authenticated : ℕ → ℕ → ℕ → List ℕ → Report
  error : ℕ → Vendor FingerprintError → ℕ → Report
  removed enumerated : ℕ → ℕ → ℕ → ℕ → Report
  sync_templates : ℕ → List ℕ → Report
  dropped : Report

-- The static variables, and what the client has been told.
pub record Wrapper : Type 0 where
  pub received_cancel : Bool
  pub received_enumerate : Bool
  pub my_device_id : ℕ
  pub known_fingers : List ℕ
  pub notices : List Notice

abbrev pub tell : Notice → Wrapper → Wrapper
tell n w = record w { notices = w.notices ++ n ∷ [] }

abbrev pub is_canceled : Vendor FingerprintError → Bool
is_canceled (shared canceled) = true
is_canceled _ = false

-- The methods of `OplusClientCallback`, with a client that is not null.
unfoldable pub on_report : Report → Wrapper → Wrapper
on_report (enroll_result device finger group remaining) w =
    tell (on_enroll_result device finger group remaining) w
on_report (acquired device info code) w =
    tell (on_acquired device (oplus_to_aosp_acquired_info info) code) w
on_report (authenticated device finger group token) w =
    tell (on_authenticated device finger group token) w
on_report (error device err code) w =
    tell (on_error device (oplus_to_aosp_error err) code)
      (record w { received_cancel = if is_canceled err then true else w.received_cancel })
on_report (removed device finger group remaining) w =
    tell (on_removed device finger group remaining) w
on_report (enumerated device finger group remaining) w =
    tell (on_enumerate device finger group remaining) (record w { received_enumerate = true })
on_report (sync_templates device fingers) w = record w {
  my_device_id = device;
  known_fingers = fingers;
}
on_report dropped w = w

unfoldable pub on_reports : List Report → Wrapper → Wrapper
on_reports [] w = w
on_reports (r ∷ rs) w = on_reports rs (on_report r w)

-- `cancel`: the reports that come in the call of the vendor, and its answer.
unfoldable pub cancel : List Report → Vendor RequestStatus → Wrapper → Wrapper × RequestStatus
cancel reports answer w =
    let v = on_reports reports (record w { received_cancel = false }) in
    (
      if v.received_cancel then v else tell (on_error v.my_device_id canceled 0) v,
      oplus_to_aosp_request_status answer,
    )

-- The loop over the fingers that are known, with `--nFingers`.
unfoldable pub enumerate_known : ℕ → ℕ → List ℕ → List Notice
enumerate_known device n [] = []
enumerate_known device n (finger ∷ fingers) =
    on_enumerate device finger 0 (n - 1) ∷ enumerate_known device (n - 1) fingers

unfoldable pub own_enumeration : Wrapper → List Notice
own_enumeration w = elim w.known_fingers [
  | [] ↦ on_enumerate w.my_device_id 0 0 0 ∷ []
  | finger ∷ fingers ↦ enumerate_known w.my_device_id (length (finger ∷ fingers)) (finger ∷ fingers)
]

abbrev pub is_sys_ok : RequestStatus → Bool
is_sys_ok sys_ok = true
is_sys_ok _ = false

unfoldable pub enumerate : List Report → Vendor RequestStatus → Wrapper → Wrapper × RequestStatus
enumerate reports answer w =
    let v = on_reports reports (record w { received_enumerate = false }) in
    let status = oplus_to_aosp_request_status answer in
    (
      if is_sys_ok status && not v.received_enumerate
          then record v { notices = v.notices ++ own_enumeration v }
          else v,
      status,
    )
