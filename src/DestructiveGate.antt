-- ===== src/DestructiveGate.antt =====
-- src/utils/destructive-gate.ts: the policy gate for irreversible operations.
-- The arguments of a call are those that the tool's schema has let through, so that `rules` and
-- `lifecycleRules` are arrays where they are there.
pub mod Detectors
pub mod Digest
pub mod Check
pub mod Decision
pub mod Confirm
pub mod Refused
mod Tests
