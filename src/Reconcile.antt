-- ===== src/Reconcile.antt =====
-- packages/agent-api/src/session-reconcile.ts: one tick of the alarm drives a session's active turn
-- forward against its runtime.
pub mod Tick
pub mod Steps
pub mod Rounds
pub mod Moves
pub mod Bounded
pub mod Limits
pub mod Ticks
pub mod Late
