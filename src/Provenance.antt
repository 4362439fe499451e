-- ===== src/Provenance.antt =====
-- src/provenance.rs: the tags that sources bring, the rules for them and their review.
pub mod Names
pub mod Normal
pub mod Metadata
pub mod Rows
pub mod Review
pub mod Capture
pub mod Rules
pub mod Commands
pub mod Extends
pub mod Applied
pub mod Attached
pub mod Writing
pub mod Settled
mod Tests
