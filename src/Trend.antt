-- ===== src/Trend.antt =====
-- src/trend.rs: samples gathered into buckets aligned to the clock, and their rollups.
pub mod Stats
pub mod Bucketer
