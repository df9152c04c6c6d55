-- ===== src/JobLog.antt =====
-- packages/supervisor/src/lifecycle.ts: the log and outcome of one job, and its operations.
pub mod Log
pub mod Poll
pub mod Kept
pub mod Paging
pub mod Operations
pub mod TurnCode
