-- ===== src/Actions.antt =====
-- The actions of androidctld on the device (androidctld/src/androidctld/actions/): the settling of the
-- screen after an action, the nodes that actions are sent to, and the checks that they had an effect.
pub mod Settle
pub mod SettleEnds
pub mod SettleQuiet
pub mod Requests
pub mod Repair
pub mod Targets
pub mod Repaired
pub mod Confirm
pub mod Focus
pub mod Confirmed
pub mod Outcomes
pub mod Structure
pub mod StructureEquality
pub mod Submit
pub mod Submitted
pub mod FocusedInput
pub mod RouteGuards
pub mod Route
pub mod RouteChecks
pub mod Routed
pub mod ActionTarget
pub mod EvidenceOrder
pub mod Targeted
mod Samples
mod Tests
