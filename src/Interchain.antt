-- ===== src/Interchain.antt =====
-- The messages between the main chain and the subchain: the packages `interchain/utils`,
-- `interchain/witness` and `interchain/orchestrator`, and the events of `core`.
pub mod Denom
pub mod Events
pub mod Cache
pub mod Orchestrator
pub mod Processing
pub mod Submitting
pub mod Trying
pub mod Next
pub mod Retrying
pub mod Turns
pub mod Minting
pub mod Witness
pub mod Samples
mod Tests
