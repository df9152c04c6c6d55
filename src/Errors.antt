-- ===== src/Errors.antt =====
-- packages/agent-api/src/errors.ts and api-error.ts: the failures of the service and what a caller
-- sees of one, over HTTP and behind a call of another object.
pub mod Api
pub mod Session
pub mod Skills
pub mod Runtime
pub mod Gateway
pub mod Crossing
pub mod Domain
pub mod Boundary
pub mod Names
pub mod Hops
pub mod Permanent
