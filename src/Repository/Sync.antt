-- ===== src/Repository/Sync.antt =====
-- Incremental sync: what a page of `list_tasks` holds, and what its cursor promises.
pub mod Mapped
pub mod Pages
pub mod Rows
pub mod Unique
pub mod Complete
pub mod Promises
pub mod Sound
pub mod Client
pub mod Ends
pub mod Tombstones
pub mod Whole
pub mod Lists
mod Runs
mod Tests
