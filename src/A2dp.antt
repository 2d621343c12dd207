-- ===== src/A2dp.antt =====
-- The A2DP offload codecs under bluetooth/audio/hal.
pub mod Bits
pub mod Codec
pub mod Sbc
pub mod Aac
pub mod Factory
