-- ===== src/Types.antt =====
-- The types of src/types.rs, a module for each of its enums, and the records of the database rows.
mod Tests
pub mod Language
pub mod Status
pub mod Contest
pub mod Version
pub mod Records
