-- ===== src/Fleet.antt =====
-- The fleet of hosts: inventory, capacity, failure domains, placement.
pub mod Host
pub mod FailureDomain
pub mod Availability
pub mod Capacity
pub mod Replica
pub mod Scheduler
pub mod Registry
pub mod Volume
pub mod World
pub mod VolumeManager
pub mod Teardown
pub mod Boot
pub mod Placement
pub mod Reconcile
pub mod Orchestrator
pub mod Activator
pub mod HostLabel
pub mod Idle
pub mod Restore
pub mod Samples
mod Runs
