-- ===== src/Session.antt =====
-- The session engine, src/session.rs.
pub mod Floats
pub mod Config
pub mod Tempo
pub mod State
pub mod Events
pub mod Clock
pub mod Dispatch
pub mod Validate
pub mod Frame
pub mod Advance
pub mod Running
pub mod Named
pub mod Invariant
pub mod Located
pub mod Milestones
pub mod Catchup
pub mod Status
pub mod History
pub mod Occurrences
pub mod Service
pub mod Names
pub mod Samples
mod Tests
