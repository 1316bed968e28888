-- ===== src/Runtime.antt =====
-- androidctld/src/androidctld/runtime/: the workspace runtime, its lifecycle leases, the kernel's
-- operations and the persisted state.
pub mod Models
pub mod Screen
pub mod Lifecycle
pub mod Cancel
pub mod Kernel
pub mod Rebootstrap
pub mod ScreenCommit
pub mod Store
pub mod Operations
pub mod DeviceSession
pub mod Session
pub mod Leases
pub mod Authority
pub mod Refresh
pub mod Transports
pub mod Lane
pub mod Samples
mod Tests
