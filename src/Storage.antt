-- ===== src/Storage.antt =====
-- The storage layer: include/pulseport/storage.h, src/storage/writer.cpp and src/storage/reader.cpp.
pub mod Tables
pub mod Engine
pub mod Writer
pub mod Reader
pub mod Retention
pub mod Ranges
pub mod Upsert
pub mod History
pub mod Deletion
pub mod Database
