-- ===== src/A2dp/Sbc.antt =====
-- bluetooth/audio/hal/A2dpOffloadCodecSbc.cpp.
pub mod Format
pub mod Rate
pub mod Codec
pub mod Selected
pub mod Layout
pub mod RoundTrip
pub mod Bitpool
pub mod Hint
