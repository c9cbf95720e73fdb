-- ===== src/Elicitation.antt =====
-- src/utils/destructive-elicitation.ts: the approval of irreversible operations by a human.
-- The sanitizer of src/utils/secret-sanitizer.ts is a parameter, `sanitize`.
pub mod State
pub mod Client
pub mod Decide
pub mod Verify
pub mod Approval
pub mod Authority
pub mod Rounds
pub mod Audit
pub mod Prompt
pub mod Message
pub mod OneLine
pub mod Targets
mod Tests
