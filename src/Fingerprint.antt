-- ===== src/Fingerprint.antt =====
-- hal, the fingerprint HALs: the sensor under the display of hal/anakin-fp, and the wrappers of
-- hal/oplus-fp and hal/oppo-fp.
pub mod Goodix
pub mod Settled
pub mod Coherent
pub mod Runs
pub mod Dimmed
pub mod Filters
pub mod Oplus
pub mod Answers
