-- ===== src/Refs.antt =====
-- androidctld/src/androidctld/refs/service.py: which node of a new screen a known ref stands for.
pub mod Evidence
pub mod Match
pub mod Names
pub mod Bounds
pub mod Order
pub mod Choice
pub mod Reconcile
pub mod Located
pub mod Naming
pub mod Registry
pub mod Repair
pub mod Repaired
pub mod Decided
mod Tests
