-- ===== src/Middleware.antt =====
-- bluetooth/audio/utils/aidl_session/HidlToAidlMiddleware.cpp, which serves the HIDL interface of the
-- sessions from the AIDL ones.
pub mod Convert
pub mod Configs
pub mod Callbacks
pub mod Kept
pub mod Bridged
pub mod Answered
