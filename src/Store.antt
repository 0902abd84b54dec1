-- ===== src/Store.antt =====
-- The package `store`: the layered database of states.
pub mod KeyValue
pub mod Rolling
pub mod Reading
pub mod Refinement
pub mod Compaction
mod Tests
