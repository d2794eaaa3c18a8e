-- ===== src/Repository/Writes.antt =====
-- What the writes of `Repository` do to the rows.
pub mod Updates
pub mod Conditional
pub mod Created
pub mod Deleted
pub mod Readback
pub mod Fields
pub mod Rows
pub mod Inserted
pub mod Lists
pub mod Repeated
pub mod Titles
