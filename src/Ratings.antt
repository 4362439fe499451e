-- ===== src/Ratings.antt =====
-- How media come by their ratings: src/nsfw.rs from what the classifiers found, src/services/media.rs
-- from a person's review; and src/media_files.rs and src/maintenance.rs, which take them back.
pub mod Policy
pub mod Rows
pub mod Resets
pub mod Reviews
pub mod Fast
pub mod Coherent
pub mod Returned
pub mod Precedence
pub mod Undo
mod Tests
