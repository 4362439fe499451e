-- ===== src/Storage.antt =====
-- src/storage.rs: what storage limits admit, and what cleaning up removes.
pub mod Limits
pub mod Quota
pub mod Cleanup
pub mod Eviction
mod Tests
