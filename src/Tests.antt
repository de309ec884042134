-- ===== src/Tests.antt =====
-- The theorems at concrete inputs: values of the live data, of the storage layer and of the server.
pub mod Live
pub mod Stored
pub mod Served
pub mod Measured
pub mod Running
pub mod Migrated
pub mod Started
pub mod Changing
pub mod Rolled
