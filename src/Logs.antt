-- ===== src/Logs.antt =====
-- Log search, src/source/log and src/mcp/tools/log_grep.rs.
pub mod Terms
pub mod Pairs
pub mod Distinct
pub mod Lines
pub mod Output
pub mod Cache
pub mod Tail
pub mod Grep
pub mod Keyword
mod Tests
