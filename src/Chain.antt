-- ===== src/Chain.antt =====
-- The package `blockchain`: the store with its indices, the operations on blocks, and what they keep.
pub mod Store
pub mod Blocks
pub mod Rounds
pub mod Adding
pub mod Finality
mod Tests
