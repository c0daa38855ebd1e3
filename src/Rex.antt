-- ===== src/Rex.antt =====
-- The resource exchange, contracts/eosio.system/src/rex.cpp.
pub mod Buckets
pub mod Savings
pub mod Moves
pub mod Consolidation
pub mod Pool
pub mod Price
pub mod Funds
pub mod Returns
pub mod Flow
pub mod Pacing
pub mod Loans
pub mod Lent
pub mod Account
pub mod Run
pub mod Actions
pub mod SavingsMoves
pub mod Books
pub mod Upkeep
pub mod Trading
