-- ===== src/Fingerprint/Filters.antt =====
-- The translations of hal/anakin-fp/BiometricsFingerprint.cpp, and its `notify`. The numbers that come
-- from hardware/fingerprint.h are parameters.
use device_phh_treble_doze.Base.{
  ℕ, ℤ, pos, negsuc, ◌-◌, Bool, false, not, ◌&&◌, ◌||◌, List, [], Option, none, some, leb, ◌==◌,
  int_eqb, if◌then◌else◌,
}

pub data RequestStatus : Type 0 where
  sys_unknown sys_ok sys_enoent sys_eintr sys_eio sys_eagain sys_enomem sys_eacces : RequestStatus
  sys_efault sys_ebusy sys_einval sys_enospc sys_etimedout : RequestStatus

pub data FingerprintError : Type 0 where
  no_error hw_unavailable unable_to_process timeout no_space canceled : FingerprintError
  unable_to_remove lockout vendor_error : FingerprintError

pub data AcquiredInfo : Type 0 where
  good partial insufficient imager_dirty too_slow too_fast vendor_info : AcquiredInfo

-- `ErrorFilter`.
unfoldable pub error_filter : ℤ → RequestStatus
error_filter error =
    if int_eqb error (pos 0)
    then sys_ok
    else if int_eqb error (negsuc 1)
    then sys_enoent
    else if int_eqb error (negsuc 3)
    then sys_eintr
    else if int_eqb error (negsuc 4)
    then sys_eio
    else if int_eqb error (negsuc 10)
    then sys_eagain
    else if int_eqb error (negsuc 11)
    then sys_enomem
    else if int_eqb error (negsuc 12)
    then sys_eacces
    else if int_eqb error (negsuc 13)
    then sys_efault
    else if int_eqb error (negsuc 15)
    then sys_ebusy
    else if int_eqb error (negsuc 21)
    then sys_einval
    else if int_eqb error (negsuc 27)
    then sys_enospc
    else if int_eqb error (negsuc 109)
    then sys_etimedout
    else sys_unknown

-- The numbers of the errors and of the acquired messages in hardware/fingerprint.h.
pub record ErrorCodes : Type 0 where
  pub hw_unavailable_code : ℕ
  pub unable_to_process_code : ℕ
  pub timeout_code : ℕ
  pub no_space_code : ℕ
  pub canceled_code : ℕ
  pub unable_to_remove_code : ℕ
  pub lockout_code : ℕ
  pub error_vendor_base : ℕ

pub record AcquiredCodes : Type 0 where
  pub good_code : ℕ
  pub partial_code : ℕ
  pub insufficient_code : ℕ
  pub imager_dirty_code : ℕ
  pub too_slow_code : ℕ
  pub too_fast_code : ℕ
  pub acquired_vendor_base : ℕ

-- `VendorErrorFilter`, with the vendor code. A negative number is unknown.
unfoldable pub vendor_error_filter : ErrorCodes → ℤ → FingerprintError × ℕ
vendor_error_filter k (negsuc n) = (unable_to_process, 0)
vendor_error_filter k (pos error) =
    if error == k.hw_unavailable_code
    then (hw_unavailable, 0)
    else if error == k.unable_to_process_code
    then (unable_to_process, 0)
    else if error == k.timeout_code
    then (timeout, 0)
    else if error == k.no_space_code
    then (no_space, 0)
    else if error == k.canceled_code
    then (canceled, 0)
    else if error == k.unable_to_remove_code
    then (unable_to_remove, 0)
    else if error == k.lockout_code
    then (lockout, 0)
    else if leb k.error_vendor_base error
    then (vendor_error, error - k.error_vendor_base)
    else (unable_to_process, 0)

-- `VendorAcquiredFilter`, with the vendor code.
unfoldable pub vendor_acquired_filter : AcquiredCodes → ℤ → AcquiredInfo × ℕ
vendor_acquired_filter k (negsuc n) = (insufficient, 0)
vendor_acquired_filter k (pos info) =
    if info == k.good_code
    then (good, 0)
    else if info == k.partial_code
    then (partial, 0)
    else if info == k.insufficient_code
    then (insufficient, 0)
    else if info == k.imager_dirty_code
    then (imager_dirty, 0)
    else if info == k.too_slow_code
    then (too_slow, 0)
    else if info == k.too_fast_code
    then (too_fast, 0)
    else if leb k.acquired_vendor_base info
    then (vendor_info, info - k.acquired_vendor_base)
    else (insufficient, 0)

-- What the client of the framework is told.
pub data Notice : Type 0 where
  on_enroll_result : ℕ → ℕ → ℕ → ℕ → Notice
  on_acquired : ℕ → AcquiredInfo → ℕ → Notice
  on_authenticated : ℕ → ℕ → ℕ → List ℕ → Notice
  on_error : ℕ → FingerprintError → ℕ → Notice
  on_removed on_enumerate : ℕ → ℕ → ℕ → ℕ → Notice

-- `fingerprint_msg_t`.
pub data Message : Type 0 where
  error_message acquired_message : ℤ → Message
  enrolling removing enumerating : ℕ → ℕ → ℕ → Message
  authenticated : ℕ → ℕ → List ℕ → Message
  unknown_message : Message

-- The acquired messages of Goodix that are not passed on.
abbrev pub is_internal : ℤ → Bool
is_internal info = int_eqb info (pos 1001) || int_eqb info (pos 1002)

-- The notice that a message becomes.
unfoldable pub notice_of : ErrorCodes → AcquiredCodes → ℕ → Message → Option Notice
notice_of k a device (error_message error) =
    let (result, code) = vendor_error_filter k error in some (on_error device result code)
notice_of k a device (acquired_message info) =
    if is_internal info
    then none
    else (let (result, code) = vendor_acquired_filter a info in
        some (on_acquired device result code))
notice_of k a device (enrolling finger group remaining) =
    some (on_enroll_result device finger group remaining)
notice_of k a device (removing finger group remaining) =
    some (on_removed device finger group remaining)
notice_of k a device (authenticated finger group token) =
    some (on_authenticated device finger group (if finger == 0 then [] else token))
notice_of k a device (enumerating finger group remaining) =
    some (on_enumerate device finger group remaining)
notice_of k a device unknown_message = none

-- Whether a failing call of the client lifts the finger.
unfoldable pub lifts_on_failure : Message → Bool
lifts_on_failure (authenticated finger group token) = not (finger == 0)
lifts_on_failure _ = false

-- `notify`: without a client nothing happens; the last argument tells whether the call of the client
-- succeeds. The result is what the client is told, and whether `onFingerUp` is called next.
unfoldable pub notify :
    ErrorCodes → AcquiredCodes → ℕ → Bool → Message → Bool → Option Notice × Bool
notify k a device has_client message delivered =
    if not has_client
    then (none, false)
    else (notice_of k a device message, lifts_on_failure message && not delivered)
