-- ===== src/State/OtherRows.antt =====
-- The voters and producers, the memory market and the name auctions, contracts/eosio.system/include/eosio.system/
-- eosio.system.hpp and exchange_state.hpp.
use eosio_system.Base.{ℕ, Bool, Option, List}
use eosio_system.Base.Int.{ℤ}
use eosio_system.Host.{Name, Asset}
use eosio_system.Table.{Table}

-- `voter_info`
pub record VoterInfo (F : Type 0) : Type 0 where
  pub proxy : Name
  pub producers : List Name
  pub staked : ℤ
  pub last_vote_weight : F
  pub proxied_vote_weight : F
  pub is_proxy : Bool
  pub flags1 : ℕ

-- `producer_info` without the keys and the page of the producer, which no code modelled reads.
pub record ProducerInfo (F : Type 0) : Type 0 where
  pub total_votes : F
  pub is_active : Bool
  pub unpaid_blocks : ℕ
  pub last_claim_time : ℕ
  pub location : ℕ

-- `producer_info2`
pub record ProducerInfo2 (F : Type 0) : Type 0 where
  pub votepay_share : F
  pub last_votepay_share_update : ℕ

-- The voters and producers, and the fields of the global states about votes. Times are in microseconds.
pub record VoteTables (F : Type 0) : Type 0 where
  pub voters : Table (VoterInfo F)
  pub producers : Table (ProducerInfo F)
  pub producers2 : Table (ProducerInfo2 F)
  pub thresh_activated_stake_time : ℕ
  pub total_activated_stake : ℤ
  pub total_producer_vote_weight : F
  pub total_producer_votepay_share : F
  pub total_vpay_share_change_rate : F
  pub last_vpay_state_update : ℕ

-- The fields of the global states about the pay of producers. Slots are those of a `block_timestamp`.
pub record PayTables (F : Type 0) : Type 0 where
  pub last_producer_schedule_update : ℕ
  pub last_pervote_bucket_fill : ℕ
  pub pervote_bucket : ℤ
  pub perblock_bucket : ℤ
  pub total_unpaid_blocks : ℕ
  pub continuous_rate : F
  pub inflation_pay_factor : ℤ
  pub votepay_factor : ℤ
  pub revision : ℕ

-- `exchange_state::connector` without its weight, which only code that is not called reads.
pub record ExchangeState : Type 0 where
  pub supply : Asset
  pub base : Asset
  pub quote : Asset

-- The market and the fields of `eosio_global_state` and `eosio_global_state2` about memory. Slots are
-- those of a `block_timestamp`.
pub record RamTables : Type 0 where
  pub rammarket : Option ExchangeState
  pub max_ram_size : ℕ
  pub total_ram_bytes_reserved : ℕ
  pub total_ram_stake : ℤ
  pub new_ram_per_block : ℕ
  pub last_ram_increase : ℕ

-- `name_bid`; `last_bid_time` is a `time_point`.
pub record NameBid : Type 0 where
  pub high_bidder : Name
  pub high_bid : ℤ
  pub last_bid_time : ℕ

-- The auctions, the refunds by auctioned name, and when the last auction closed.
pub record NameTables : Type 0 where
  pub namebids : Table NameBid
  pub bidrefunds : Name → Table Asset
  pub last_name_close : ℕ
