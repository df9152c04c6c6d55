-- ===== src/Durable.antt =====
-- packages/durable-machine/src/durable.ts: a machine that lives in a store.
pub mod Defs
pub mod System
pub mod Keeps
pub mod Outbox
pub mod Epochs
pub mod Applied
pub mod Wake
