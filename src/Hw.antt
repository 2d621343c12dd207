-- ===== src/Hw.antt =====
-- bluetooth/audio/hw, the legacy audio HAL for Bluetooth: the port, the streams, and their laws.
pub mod Types
pub mod Port
pub mod Config
pub mod Out
pub mod Position
pub mod Params
pub mod Life
pub mod Refine
pub mod Waiting
pub mod Streams
pub mod Switches
pub mod Runs
pub mod Calls
pub mod In
pub mod Waits
pub mod Bounds
pub mod Writes
pub mod Device
pub mod Opening
pub mod Replies
