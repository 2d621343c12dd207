-- ===== src/Session.antt =====
-- bluetooth/audio/utils/aidl_session: the session that the Bluetooth stack and the audio HAL share.
pub mod Types
pub mod State
pub mod Cookies
pub mod Lifecycle
pub mod Observers
pub mod Trace
pub mod Latency
pub mod Pcm
