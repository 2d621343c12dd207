-- ===== src/Session/Latency.antt =====
-- Which latency modes a session offers (BluetoothAudioSession.cpp).
use device_phh_treble_doze.Base.{
  ◌≡◌, refl, Bool, true, false, not, ◌&&◌, ◌||◌, List, [], ◌∷◌, ◌++◌, arith, if◌then◌else◌,
}
use device_phh_treble_doze.Session.Types.{
  LatencyMode, unknown_mode, low_latency, free, dynamic_spatial_audio_software,
  dynamic_spatial_audio_hardware, a2dp_hardware_offload_encoding, Session,
}
use device_phh_treble_doze.Session.State.{
  is_session_ready, is_low_latency, is_le_audio_offload_encoding, is_dynamic_spatial_audio,
  le_modes, allowed_modes, get_supported_latency_modes, has_low_latency,
  report_low_latency_mode_allowed_changed,
}

abbrev pub mode_eqb : LatencyMode → LatencyMode → Bool
mode_eqb unknown_mode unknown_mode = true
mode_eqb low_latency low_latency = true
mode_eqb free free = true
mode_eqb dynamic_spatial_audio_software dynamic_spatial_audio_software = true
mode_eqb dynamic_spatial_audio_hardware dynamic_spatial_audio_hardware = true
mode_eqb _ _ = false

pub contains : LatencyMode → List LatencyMode → Bool
contains m [] = false
contains m (x ∷ xs) = mode_eqb m x || contains m xs

-- What the type of the session, and the stack's permission, admit.
abbrev pub admits : Session → LatencyMode → Bool
admits s m =
    if is_le_audio_offload_encoding s.session_type
    then not (is_low_latency m)
    else not (is_dynamic_spatial_audio m) && (s.low_latency_allowed || not (is_low_latency m))

contains-le_modes :
    (m : LatencyMode) (ms : List LatencyMode)
    → contains m (le_modes ms) ≡ (contains m ms && not (is_low_latency m))
unfolding contains le_modes
contains-le_modes m [] = refl
contains-le_modes m (x ∷ ms) = ground (arith, contains-le_modes m ms)

contains-allowed_modes :
    (allowed : Bool) (m : LatencyMode) (ms : List LatencyMode)
    → contains m (allowed_modes allowed ms)
      ≡ (contains m ms && (not (is_dynamic_spatial_audio m) && (allowed || not (is_low_latency m))))
unfolding contains allowed_modes
contains-allowed_modes allowed m [] = refl
contains-allowed_modes allowed m (x ∷ ms) = ground (arith, contains-allowed_modes allowed m ms)

-- A session offers a latency mode exactly when it is ready, the stack has given the mode, and the
-- session admits it: in the encoding session of LE audio offload all modes but low latency, in other
-- sessions no spatial audio, and low latency only while the stack allows it.
pub supported_latency_modes_lem :
    (s : Session) (m : LatencyMode)
    → contains m (get_supported_latency_modes s)
      ≡ (is_session_ready s && (contains m s.latency_modes && admits s m))
unfolding get_supported_latency_modes contains
supported_latency_modes_lem s m = ground (
  arith,
  contains-le_modes m s.latency_modes,
  contains-allowed_modes s.low_latency_allowed m s.latency_modes,
)

has_low_latency-contains : (ms : List LatencyMode) → has_low_latency ms ≡ contains low_latency ms
unfolding has_low_latency contains
has_low_latency-contains [] = refl
has_low_latency-contains (m ∷ ms) = ground (arith, has_low_latency-contains ms)

contains-append :
    (m : LatencyMode) (xs ys : List LatencyMode)
    → contains m (xs ++ ys) ≡ (contains m xs || contains m ys)
unfolding contains
contains-append m [] ys = refl
contains-append m (x ∷ xs) ys = ground (arith, contains-append m xs ys)

-- In a ready encoding session of A2DP offload, `GetSupportedLatencyModes` offers low latency after
-- `ReportLowLatencyModeAllowedChanged` when that allowed it, whatever modes the stack had given, and
-- does not offer it when that disallowed it.
pub low_latency_lem :
    (s : Session) (allowed : Bool)
    → s.session_type ≡ a2dp_hardware_offload_encoding
    → is_session_ready s ≡ true
    → contains low_latency
        (get_supported_latency_modes (report_low_latency_mode_allowed_changed s allowed).0)
      ≡ allowed
unfolding report_low_latency_mode_allowed_changed is_session_ready contains
low_latency_lem s allowed same ready = ground (
  arith,
  supported_latency_modes_lem (report_low_latency_mode_allowed_changed s allowed).0 low_latency,
  has_low_latency-contains s.latency_modes,
  contains-append low_latency s.latency_modes (low_latency ∷ []),
)
