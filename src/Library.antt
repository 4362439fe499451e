-- ===== src/Library.antt =====
-- src/services/library.rs: the pages of media that `list` answers with.
pub mod Pages
pub mod Sorted
pub mod Walk
mod Tests
