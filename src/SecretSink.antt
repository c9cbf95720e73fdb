-- ===== src/SecretSink.antt =====
-- src/utils/secret-sink.ts: credentials that are shown once are stored in a local file, at most one
-- for each idempotency key. Several server processes may share the file.
pub mod Records
pub mod Phases
pub mod Operation
pub mod Once
pub mod Claims
pub mod Steps
pub mod Minted
pub mod Replay
pub mod Policy
pub mod Allowed
mod Tests
