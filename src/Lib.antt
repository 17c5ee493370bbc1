-- ===== src/Lib.antt =====
-- gaze-lens lets an agent read databases and logs without the raw values. A client program keeps
-- connection profiles, compiles structured queries, redacts what sources answer and keeps an audit;
-- a source server on another machine answers it over a closed protocol, each request under an
-- authority file and a durable history of identities.
--
-- The parts and the code that they model, by paths from the repository's root:
--   * Prelude: lists, texts as bytes, fallible code as Result, and the loops that stop at an error.
--   * Protocol/Errors, Protocol/Bounds, Protocol/Frame, Protocol/Query, Protocol/Args, Protocol/Wire:
--     crates/gaze-lens-protocol/src, in this order lib.rs, bounds.rs, FrameBuffer of bounds.rs with
--     the loop `read` of the server's service.rs, query.rs, `Args` and the messages of wire.rs.
--     Protocol/Results, Protocol/Messages and Protocol/Sequence are the rest of wire.rs: the results
--     and their checks against the arguments, what is checked of each message, and their order on
--     one connection. Protocol/Values is value.rs, its decimals and its compaction of JSON.
--     Protocol/Strings and Protocol/Json are the JSON scanner of bounds.rs, which every frame passes
--     before serde reads it; Protocol/Faults are its answers, and Protocol/Json/Tree is JSON as trees,
--     to say what it accepts.
--     Protocol/Checks holds the lemmas on chains of checks.
--   * Server/History, Server/Auth, Server/Startup, Server/Connection: crates/gaze-lens-server/src,
--     history.rs (the ledger and Ledger::enroll), auth.rs (Authority::parse, prepare, revalidate),
--     History::open, check and validate with Authority::identities, and `connection`, `call`,
--     `authority` and PrincipalPermit of service.rs. A connection asks Auth for a pin, takes a
--     permit, and reads the authority again before its body and before release; Startup enrols what
--     Auth defines in History.
--   * Retention: src/session/maintenance.rs, the purge modes, which Profiles merge, and in
--     Retention/Sweep the sweep of expired snapshots over the table of calls.
--   * Profiles: src/profile.rs, the profiles of the user file and the project file and their merge.
--   * Query: src/source/db/query.rs and query_dto.rs, queries compiled to SQL for three dialects.
--   * Logs: the search of logs. Logs/Terms, Logs/Pairs and Logs/Keyword are src/mcp/tools/log_grep.rs,
--     the terms of a line, the index and its answer; Logs/Tail, Logs/Grep and Logs/Cache are
--     src/source/log/local_log.rs, with the splitting of ssh_log.rs. A search fetches a tail through
--     the cache, and filters its lines or indexes them. Logs/Distinct holds lemmas.
--   * Sessions: src/session/mod.rs and src/value.rs. Sessions/Registry holds the profiles and sources
--     of a session and calls a tool, Sessions/Rows redacts what its source answers under the column
--     actions of Policy and cuts it at the caps, Sessions/Values are the values of both.
--   * Policy: src/policy.rs, the validation of policies and the pipelines that they build; the
--     profile that a remote policy is checked for is one of Profiles.
--
-- How the code is rendered. A struct is a record and an enum a data type with the source's names;
-- a method that changes its receiver takes the state and returns it. A text is the list of its
-- bytes. usize and u64 are natural numbers: sizes are compared with ceilings far below 2^64, the
-- frame buffer's checked addition keeps its test, those of pages and lines are of numbers just
-- checked, and a limit above the hard cap is refused before one is added. Every loop is recursion
-- on a list; decimal placeholders take their own value as fuel, which is more than their digits,
-- and the backward reading of a log takes the length of the file, since each chunk has a byte.
-- The scanner takes a round for each byte left, and a level for each depth up to the ceiling; its
-- answer out_of_rounds, which the source has not, tells a want of them from a refusal.
-- Errors of the protocol are its closed enum. A HashMap is a function.
--
-- Parameters stand for other code: SHA-256 of a credential, fingerprints, the sizes and encodings
-- that serde_json gives, the ledger that it reads, the outcome of writing it, the chunks that a
-- socket brings and whether an allocation succeeds, each reading of the authority file and clock,
-- which texts are UTF-8 and what serde_json decodes an escaped key to, the file system, ULID
-- decoder and UPDATE of a sweep, the tables of Unicode, what regular expressions match, the bytes
-- of a log file and their decoding, what a fetch brings, and of the gaze library whether its
-- detectors load and its builder accepts, and what its pipeline and session answer, with one
-- token for one text throughout a session. That fingerprints are lowercase digests and that a
-- pipeline answers each key that it is given are the hypotheses on such code besides the frame
-- reader's: that reads bring bytes and that allocations do not fail.
--
-- Not modelled: sockets, tasks, deadlines, file locks and private paths; TOML, and JSON but for
-- its scanner; the stores of secrets; SQL engines and SSH; the gaze pipeline that redacts; the
-- envelope of a dispatch and the manifest of a session, but for the sweep; the tools of the MCP
-- frontend and the command line; SSH tails, and the JSON metadata of a search.
mod Prelude
mod Sets
pub mod Protocol
pub mod Server
pub mod Retention
pub mod Profiles
pub mod Query
pub mod Logs
pub mod Policy
pub mod Sessions
