-- ===== src/Tests.antt =====
-- The theorems at concrete inputs, and runs of the definitions.
mod Lease
mod Durable
mod JobLog
mod Session
mod Assignment
mod Stream
mod Turns
mod Errors
mod Reconcile
mod SkillZip
