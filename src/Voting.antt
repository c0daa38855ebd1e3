-- ===== src/Voting.antt =====
-- Votes for producers, contracts/eosio.system/src/voting.cpp.
pub mod Shares
pub mod Weight
pub mod Count
pub mod Links
pub mod Relink
pub mod Sound
pub mod Depth
pub mod Register
pub mod Ballot
pub mod History
