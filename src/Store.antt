-- ===== src/Store.antt =====
-- src/store.rs: the metrics and the trend rows, as the bucketer makes and the tables keep them.
pub mod Metrics
pub mod Rows
pub mod Tables
pub mod Groups
pub mod History
pub mod Upsert
pub mod Retention
pub mod Migration
pub mod Secret
pub mod Schema
pub mod Naturals
mod Tests
pub mod Raw
