-- ===== src/Session.antt =====
-- packages/agent-api: a session's durable record, its transactions, and the transitions of
-- session-state.ts on its environment and its deletion.
pub mod Record
pub mod Tx
pub mod Transitions
pub mod Fence
pub mod Environment
pub mod Deletion
