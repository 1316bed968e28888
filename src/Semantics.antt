-- ===== src/Semantics.antt =====
-- Decisions on compiled screens: androidctld/src/androidctld/semantics/.
pub mod Roles
pub mod Labels
pub mod Targets
pub mod Groups
pub mod Surface
pub mod Geometry
pub mod SubmitRefs
pub mod CompileNode
pub mod Compile
pub mod Ends
pub mod CompileEnds
pub mod Sources
pub mod Grouped
pub mod Publish
pub mod Published
pub mod Continuity
pub mod Repair
mod Tests
