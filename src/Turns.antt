-- ===== src/Turns.antt =====
-- packages/agent-api/src/session-state.ts: the transitions of a session's turns.
pub mod State
pub mod Batch
pub mod Repeated
pub mod Queue
pub mod Complete
pub mod Ended
pub mod Input
pub mod Deleted
pub mod Answers
pub mod Once
pub mod Children
