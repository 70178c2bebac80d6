-- ===== src/Driver.antt =====
-- crates/db-driver-api: what a driver delivers, its errors and its rows.
pub mod Error
pub mod Vectors
pub mod Nulls
pub mod Texts
pub mod Kept
pub mod Bytes
pub mod Types
pub mod Rows
