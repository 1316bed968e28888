-- ===== src/Artifacts.antt =====
-- androidctld/src/androidctld/artifacts/writer.py: the staged files of one screen and their
-- commit, rollback and discard, over a file system whose calls may be refused.
pub mod Files
pub mod Staged
pub mod Single
pub mod Batch
pub mod Loss
pub mod Payloads
pub mod Kept
pub mod Scan
pub mod Lookup
pub mod Newest
pub mod Refusals
pub mod Verdict
pub mod Samples
mod Tests
