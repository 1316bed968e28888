-- ===== src/Models.antt =====
-- The values that the daemon's parts exchange: raw snapshots, semantic nodes and compiled screens,
-- public screens, and the registry of refs.
pub mod Snapshots
pub mod Semantic
pub mod Candidates
pub mod Public
pub mod Refs
pub mod Errors
pub mod Commands
pub mod Evidence
pub mod Samples
