-- ===== src/Waits.antt =====
-- How androidctld waits: androidctld/src/androidctld/observation.py, the predicates of waits/, the
-- app targets of app_targets.py, and the retries of snapshots/service.py.
pub mod Observation
pub mod Stability
pub mod AppTargets
pub mod Signature
pub mod Equality
pub mod Evaluators
pub mod Idle
pub mod Retry
pub mod Loop
pub mod Turns
pub mod Answers
mod Tests
