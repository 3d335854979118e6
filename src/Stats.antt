-- ===== src/Stats.antt =====
-- The statistics of stats/src.
pub mod Histogram
pub mod Value
mod Tests
