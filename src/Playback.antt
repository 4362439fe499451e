-- ===== src/Playback.antt =====
-- src/services/playback.rs: presets of playback, which several pages may edit at once.
pub mod Presets
pub mod Stale
pub mod Spec
pub mod Table
pub mod Refines
mod Tests
