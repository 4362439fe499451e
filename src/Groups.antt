-- ===== src/Groups.antt =====
-- src/routes/groups.rs with the groups of src/db.rs and src/services/library.rs: the tree of groups,
-- and the tags that media inherit from it.
pub mod Tree
pub mod Ancestors
pub mod Chain
pub mod Descendants
pub mod Moves
pub mod Rows
pub mod Forest
pub mod Kept
pub mod Tags
pub mod Effective
pub mod Cache
mod Tests
