-- ===== src/AudioHal.antt =====
-- audio/hal, the HIDL audio HAL over a legacy audio device: streams, their threads and the device.
pub mod Status
pub mod Device
pub mod Out
pub mod In
pub mod System
pub mod Balance
pub mod Writer
pub mod Reader
pub mod Threads
pub mod Prepared
