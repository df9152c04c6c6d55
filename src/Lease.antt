-- ===== src/Lease.antt =====
-- packages/agent-api/src/containers/lease.ts: the lifecycle of the one container that a Durable
-- Object owns, as a machine.
pub mod Table
pub mod Spec
pub mod Refines
pub mod History
pub mod Handle
