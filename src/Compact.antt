-- ===== src/Compact.antt =====
-- compact.rs: the work of the compaction thread on the manifest and the directory.
pub mod Select
pub mod Merge
pub mod Output
pub mod Commit
pub mod Flush
pub mod Version
pub mod Collect
pub mod Execute
mod Tests
