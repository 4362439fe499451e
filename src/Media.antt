-- ===== src/Media.antt =====
-- src/services/media.rs: which bytes of a file a player may have, and reviews of ratings.
pub mod Digits
pub mod Range
pub mod Bounds
mod Tests
