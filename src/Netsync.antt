-- ===== src/Netsync.antt =====
-- The package `netsync`: what the node asks its peers for.
pub mod Inventory
pub mod Ready
mod Tests
