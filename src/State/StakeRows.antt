-- ===== src/State/StakeRows.antt =====
-- The tables of staked resources, contracts/eosio.system/include/eosio.system/eosio.system.hpp. A table
-- with a scope is keyed by the scope first.
use eosio_system.Base.{ℕ, Bool, ◌&&◌}
use eosio_system.Base.Int.{ℤ, pos, eqb_ℤ}
use eosio_system.Host.{Name, Asset}
use eosio_system.Table.{Table}

-- `user_resources`
pub record UserResources : Type 0 where
  pub net_weight : Asset
  pub cpu_weight : Asset
  pub ram_bytes : ℤ

-- `delegated_bandwidth`
pub record DelegatedBandwidth : Type 0 where
  pub net_weight : Asset
  pub cpu_weight : Asset

-- `refund_request`, with the request time in seconds.
pub record RefundRequest : Type 0 where
  pub request_time : ℕ
  pub net_amount : Asset
  pub cpu_amount : Asset

-- What `get_resource_limits` reads and `set_resource_limits` writes.
pub record Limits : Type 0 where
  pub ram : ℤ
  pub net : ℤ
  pub cpu : ℤ

pub record StakeTables : Type 0 where
  pub userres : Table UserResources
  pub delband : Name → Table DelegatedBandwidth
  pub refunds : Table RefundRequest
  pub limits : Name → Limits

-- `is_empty` of the three rows
abbrev pub resources_empty : UserResources → Bool
resources_empty r =
    eqb_ℤ r.net_weight.amount (pos 0)
    && eqb_ℤ r.cpu_weight.amount (pos 0)
    && eqb_ℤ r.ram_bytes (pos 0)

abbrev pub delegation_empty : DelegatedBandwidth → Bool
delegation_empty d = eqb_ℤ d.net_weight.amount (pos 0) && eqb_ℤ d.cpu_weight.amount (pos 0)

abbrev pub refund_empty : RefundRequest → Bool
refund_empty r = eqb_ℤ r.net_amount.amount (pos 0) && eqb_ℤ r.cpu_amount.amount (pos 0)
