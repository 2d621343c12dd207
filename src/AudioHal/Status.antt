-- ===== src/AudioHal/Status.antt =====
-- audio/hal/Util.h: the results that the statuses of the legacy HAL become.
use device_phh_treble_doze.Base.{Bool, true, false}

pub data Result : Type 0 where
  ok not_initialized invalid_arguments invalid_state not_supported : Result

-- 0 and the negated error numbers that the code names.
pub data HalStatus : Type 0 where
  success einval enodata enodev enosys other_error : HalStatus

unfoldable pub analyze_status : HalStatus → Result
analyze_status success = ok
analyze_status einval = invalid_arguments
analyze_status enodata = invalid_state
analyze_status enodev = not_initialized
analyze_status enosys = not_supported
analyze_status other_error = invalid_state

abbrev pub is_success : HalStatus → Bool
is_success success = true
is_success _ = false

abbrev pub is_ok : Result → Bool
is_ok ok = true
is_ok _ = false
