-- ===== src/Store.antt =====
-- packages/durable-machine/src/store.ts: the storage of machines, as `memoryStore` implements it.
pub mod Memory
pub mod Transactions
pub mod Keeps
pub mod Outbox
