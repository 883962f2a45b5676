-- ===== src/Invalidate.antt =====
-- cache.go: the invalidation of cached queries after a row is saved or deleted.
-- Columns: which columns changed. Tasks: what each query needs. Run: the four phases.
-- Calm and Panics: where no test of a row panics, and where one does.
pub mod Columns
pub mod Tasks
pub mod Run
pub mod Unchanged
pub mod Writes
pub mod Found
pub mod Known
pub mod Changed
pub mod Calm
pub mod Fresh
pub mod Panics
pub mod Skipped
pub mod Precise
