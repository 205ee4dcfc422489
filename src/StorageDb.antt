-- ===== src/StorageDb.antt =====
-- The record stores of esp-idf/src/storage_db.cpp: schemas, records, stores and their files.
pub mod Words
pub mod Schema
pub mod Descriptor
pub mod Hex
pub mod Record
pub mod Index
pub mod Store
pub mod Compact
pub mod Fields
pub mod Gzip
pub mod Files
mod Tests
