-- ===== src/SkillZip.antt =====
-- packages/agent-api/src/skill-zip.ts: the reader of an uploaded skill's archive, ZIP32 metadata only.
pub mod Bytes
pub mod Central
pub mod Archive
pub mod Sound
pub mod Kept
pub mod Walk
pub mod Accepted
pub mod Paths
pub mod Apart
pub mod Found
