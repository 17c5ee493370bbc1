-- ===== src/Server.antt =====
-- The source server, crates/gaze-lens-server.
pub mod History
pub mod Auth
pub mod Startup
pub mod Connection
