-- ===== src/Etl.antt =====
-- src/etl: entries are collected in a buffer, spilled to files in sorted runs, and read back merged.
pub mod DataProvider
pub mod Collector
pub mod Sorting
pub mod Merging
pub mod Anchors
pub mod Heads
pub mod Merge
pub mod Collected
mod Examples
