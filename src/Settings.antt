-- ===== src/Settings.antt =====
-- src/services/settings.rs: the settings of the library and how a PATCH changes them.
pub mod State
pub mod Checks
pub mod Apply
pub mod Patching
pub mod Validity
pub mod Providers
pub mod Steps
pub mod Asked
pub mod Atomic
mod Tests
