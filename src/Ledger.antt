-- ===== src/Ledger.antt =====
-- The package `ledger`: the state of the accounts, the execution of transactions, and of blocks.
pub mod Result
pub mod Types
pub mod Inputs
pub mod Send
pub mod Funds
pub mod Charging
pub mod Loading
pub mod Transfers
pub mod Conservation
pub mod Replay
pub mod Execution
pub mod State
pub mod Blocks
pub mod Proposing
pub mod Screening
pub mod Applying
pub mod Frames
pub mod Updates
pub mod Dynasty
pub mod Ordinary
pub mod Agreement
pub mod Samples
mod Tests
