-- ===== src/Simg.antt =====
-- cmds/simg2img_simple.cpp, which writes a sparse image out in full.
pub mod Copy
pub mod Main
pub mod Copied
pub mod Format
pub mod Smooth
pub mod Bodies
pub mod RoundTrip
