-- ===== src/Core.antt =====
-- The package `core`: validators, votes, certificates and blocks.
pub mod Validator
pub mod Vote
pub mod Certificate
pub mod Block
mod Tests
