-- ===== src/Protocol.antt =====
-- The wire protocol, crates/gaze-lens-protocol.
pub mod Errors
pub mod Bounds
pub mod Faults
pub mod Wire
pub mod Frame
pub mod Checks
pub mod Query
pub mod Args
pub mod Strings
pub mod Json
pub mod Results
pub mod Messages
pub mod Values
pub mod Sequence
