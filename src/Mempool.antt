-- ===== src/Mempool.antt =====
-- The package `mempool`: the bookkeeper of the transactions that were seen.
pub mod Bookkeeper
pub mod Seen
pub mod Calls
mod Tests
