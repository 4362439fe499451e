-- ===== src/Maintenance.antt =====
-- src/maintenance.rs: the controller of maintenance jobs, the leases of background workers, and the
-- work of a job.
pub mod Leases
pub mod Exclusion
pub mod Kinds
pub mod Work
pub mod Jobs
pub mod Safety
pub mod Outcome
mod Tests
