-- ===== src/A2dp/Aac.antt =====
-- bluetooth/audio/hal/A2dpOffloadCodecAac.cpp.
pub mod Format
pub mod Codec
pub mod Layout
pub mod RoundTrip
