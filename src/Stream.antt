-- ===== src/Stream.antt =====
-- packages/agent-api/src/session-events.ts: the events that a runtime streams, as the session's
-- public items, subagents and usage.
pub mod Types
pub mod Rows
pub mod Quiet
pub mod Items
pub mod Accept
pub mod Finish
pub mod Text
pub mod Summary
pub mod Usage
pub mod Actions
pub mod Finished
pub mod Message
pub mod Reasoning
pub mod Calls
pub mod Totals
pub mod Subagents
