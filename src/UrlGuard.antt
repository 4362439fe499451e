-- ===== src/UrlGuard.antt =====
-- src/url_guard.rs: which addresses a source may name.
pub mod Addresses
pub mod Blocks
mod Tests
