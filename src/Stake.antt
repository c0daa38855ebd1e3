-- ===== src/Stake.antt =====
-- Staking, contracts/eosio.system/src/delegate_bandwidth.cpp.
pub mod VotingPower
pub mod Change
pub mod Sums
pub mod Weights
pub mod Payment
pub mod Conserved
pub mod History
pub mod Delay
