-- ===== src/Sessions.antt =====
-- The redaction of what a source answers, src/session/mod.rs and src/value.rs. The library `gaze`
-- is given: what its pipeline and its session answer.
pub mod Values
pub mod Rows
pub mod Registry
