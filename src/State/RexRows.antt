-- ===== src/State/RexRows.antt =====
-- The tables of the resource exchange, contracts/eosio.system/include/eosio.system/eosio.system.hpp.
-- The `version` fields, which nothing reads, and the owners, which are the keys, are left out.
use eosio_system.Base.{ℕ, Bool, Option, List}
use eosio_system.Base.Int.{ℤ}
use eosio_system.Host.{Name, Asset}
use eosio_system.Table.{Table}

-- `rex_pool`
pub record RexPool : Type 0 where
  pub total_lent : Asset
  pub total_unlent : Asset
  pub total_rent : Asset
  pub total_lendable : Asset
  pub total_rex : Asset
  pub namebid_proceeds : Asset
  pub loan_num : ℕ

-- `rex_return_pool`; times are `time_point_sec`.
pub record RexReturnPool : Type 0 where
  pub last_dist_time : ℕ
  pub pending_bucket_time : ℕ
  pub oldest_bucket_time : ℕ
  pub pending_bucket_proceeds : ℤ
  pub current_rate_of_increase : ℤ
  pub proceeds : ℤ

-- `rex_return_buckets`: a map, in the order of its keys.
abbrev pub Buckets : Type 0
Buckets = List (ℕ × ℤ)

-- `rex_balance`, with the maturity buckets from front to back.
pub record RexBalance : Type 0 where
  pub vote_stake : Asset
  pub rex_balance : Asset
  pub matured_rex : ℤ
  pub rex_maturities : Buckets

-- `rex_loan`, whose key is its `loan_num`; `expiration` is a `time_point`.
pub record RexLoan : Type 0 where
  pub from : Name
  pub receiver : Name
  pub payment : Asset
  pub balance : Asset
  pub total_staked : Asset
  pub expiration : ℕ

-- `rex_order`
pub record RexOrder : Type 0 where
  pub rex_requested : Asset
  pub proceeds : Asset
  pub stake_change : Asset
  pub order_time : ℕ
  pub is_open : Bool

pub record RexTables : Type 0 where
  pub rexpool : Option RexPool
  pub rexretpool : Option RexReturnPool
  pub rexretbuckets : Buckets
  pub rexfunds : Table Asset
  pub rexbalance : Table RexBalance
  pub rexorders : Table RexOrder
  pub cpu_loans : Table RexLoan
  pub net_loans : Table RexLoan
