-- ===== src/Tests.antt =====
-- A chain to run the contract on, and the theorems at concrete states.
pub mod Sample
mod Setup
mod Stake
mod Voting
mod Pay
mod Blocks
mod Rex
mod Limits
mod Savings
mod Pool
mod Books
mod Names
mod Ram
