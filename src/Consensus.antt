-- ===== src/Consensus.antt =====
-- The package `consensus`: the validator managers, the consensus state, and the engine.
pub mod Managers
pub mod Proposer
pub mod Filter
pub mod State
pub mod Engine
pub mod Commit
pub mod Voting
pub mod Processing
pub mod Proposing
mod Tests
