-- ===== src/Rex/Actions/Trade.antt =====
-- Buying and selling REX, contracts/eosio.system/src/rex.cpp: `buyrex`, `unstaketorex` and `sellrex`.
use eosio_system.Base.{
  true, false, not, ◌&&◌, ◌||◌, Option, none, some, ◌==◌, if◌then◌else◌, Result, ok, ◌>>=◌, ◌>>◌,
  check, require, String,
}
use eosio_system.Base.Int.{ℤ, pos, neg_ℤ, ltb_ℤ, leb_ℤ, eqb_ℤ}
use eosio_system.Host.{
  Host, Name, Asset, asset, add_amount, sub_amount, Sent, require_auth, core, rex_account,
  stake_account, b1,
}
use eosio_system.State.{
  State, send, RexBalance, RexOrder, RexTables, DelegatedBandwidth, delegation_empty,
}
use eosio_system.Table.{Table, find, put, erase}
use eosio_system.Stake.Change.{set_delegations}
use eosio_system.Votes.{Votes}
use eosio_system.Resources.{update_resource_limits}
use eosio_system.Rex.Buckets.{process_rex_maturities}
use eosio_system.Rex.Pool.{the_pool, rex_symbol, add_to_rex_pool, fill_rex_order, RexOrderOutcome}
use eosio_system.Rex.Funds.{transfer_from_fund}
use eosio_system.Rex.Account.{
  set_rex, update_rex_account, add_to_rex_balance, check_voting_requirement,
}
use eosio_system.Rex.Run.{runrex}

module _ (host : Host) (votes : Votes host) where
  open host use {F, now, core_symbol, asset_add}

  abbrev must_vote : String
  must_vote = "must vote for at least 21 producers or for a proxy before buying REX"

  -- `add_to_rex_pool` and `add_to_rex_balance`: the REX, the change of the stake, and the tables.
  unfoldable pub buy : Name → Asset → RexTables → Result (Asset × Asset × RexTables)
  buy from amount t = do
    out ← add_to_rex_pool host amount t.rexpool
    let rex_received = asset out.0 rex_symbol
    out' ← add_to_rex_balance host from amount rex_received (record t { rexpool = some out.1 })
    ok (rex_received, out'.0, out'.1)

  unfoldable pub buyrex : Name → Asset → State F → Result (State F)
  unfolding buy
  buyrex from amount s = do
    require_auth host from
    check (amount.symbol == core_symbol) "asset must be core token"
    check (ltb_ℤ (pos 0) amount.amount) "must use positive amount"
    check_voting_requirement host from must_vote s
    funds ← transfer_from_fund host from amount s.rex.rexfunds
    out ← buy from amount (record s.rex { rexfunds = funds })
    s1 ← runrex host 2 (set_rex out.2 s)
    out1 ← update_rex_account host votes from (core host (pos 0)) out.1 false s1
    ok (send (Sent.buyresult out.0) out1.1)

  -- What is staked for the receiver, less what is taken from it; an empty row is erased.
  unfoldable pub take_delegation :
      Asset → Asset → Name → Table DelegatedBandwidth → Result (Table DelegatedBandwidth)
  take_delegation from_net from_cpu receiver dbw = do
    d ← require (find receiver dbw) "delegated bandwidth record does not exist"
    check (leb_ℤ from_net.amount d.net_weight.amount) "amount exceeds tokens staked for net"
    check (leb_ℤ from_cpu.amount d.cpu_weight.amount) "amount exceeds tokens staked for cpu"
    let d' = record d {
      net_weight = sub_amount d.net_weight from_net.amount;
      cpu_weight = sub_amount d.cpu_weight from_cpu.amount;
    }
    ok (if delegation_empty d' then erase receiver dbw else put receiver d' dbw)

  unfoldable pub unstaketorex : Name → Name → Asset → Asset → State F → Result (State F)
  unfolding take_delegation buy
  unstaketorex owner receiver from_net from_cpu s = do
    require_auth host owner
    check (from_net.symbol == core_symbol && from_cpu.symbol == core_symbol)
        "asset must be core token"
    check
        (leb_ℤ (pos 0) from_net.amount
          && leb_ℤ (pos 0) from_cpu.amount
          && (ltb_ℤ (pos 0) from_net.amount || ltb_ℤ (pos 0) from_cpu.amount))
        "must unstake a positive amount to buy rex"
    check_voting_requirement host owner must_vote s
    dbw ← take_delegation from_net from_cpu receiver (s.stake.delband owner)
    s1 ←
        update_resource_limits host 0 receiver (neg_ℤ from_net.amount) (neg_ℤ from_cpu.amount)
          (set_delegations owner dbw s)
    payment ← asset_add from_net from_cpu
    let s2 = send (Sent.transfer stake_account rex_account payment) s1
    out ← buy owner payment s2.rex
    s3 ← runrex host 2 (set_rex out.2 s2)
    out1 ← update_rex_account host votes owner (core host (pos 0)) (core host (pos 0)) true s3
    ok (send (Sent.buyresult out.0) out1.1)

  -- The order of an owner after an order that could not be filled.
  unfoldable pub queue_order : Asset → Option RexOrder → RexOrder
  queue_order rex none = record {
    rex_requested = rex;
    proceeds = core host (pos 0);
    stake_change = core host (pos 0);
    order_time = now;
    is_open = true;
  }
  queue_order rex (some order) = record order {
    rex_requested = add_amount order.rex_requested rex.amount;
  }

  -- The end of `sellrex` where the order was not filled: what is pending, and the state.
  unfoldable pub enqueue : Name → Asset → State F → Result (ℤ × State F)
  unfolding queue_order
  enqueue from rex s = do
    check (not (from == b1)) "b1 sellrex orders should not be queued"
    let order = queue_order rex (find from s.rex.rexorders)
    ok (
      order.rex_requested.amount,
      set_rex (record s.rex { rexorders = put from order s.rex.rexorders }) s,
    )

  -- The end of `sellrex`: what was not filled waits in the queue.
  unfoldable pub end_of_sale :
      Name → Asset → RexOrderOutcome → RexBalance → Asset × State F → Result (State F)
  unfolding enqueue
  end_of_sale from rex o rb out = do
    queued ← (if o.success then ok ((out.0).amount, out.1) else enqueue from rex out.1)
    check (leb_ℤ queued.0 rb.matured_rex) "insufficient funds for current and scheduled orders"
    ok (if o.success then send (Sent.sellresult (core host o.proceeds)) queued.1 else queued.1)

  -- `sellrex` after `runrex`.
  unfoldable pub sell_now : Name → Asset → State F → Result (State F)
  unfolding end_of_sale
  sell_now from rex s = do
    rb0 ← require (find from s.rex.rexbalance) "user must first buyrex"
    check (ltb_ℤ (pos 0) rex.amount && rex.symbol == rb0.rex_balance.symbol)
        "asset must be a positive amount of (REX, 4)"
    let rb1 = process_rex_maturities host rb0
    check (leb_ℤ rex.amount rb1.matured_rex) "insufficient available rex"
    p ← the_pool s.rex
    (o, rb, p') ← fill_rex_order rex.amount rb1 p
    check (not (o.success && eqb_ℤ o.proceeds (pos 0))) "proceeds are negligible"
    let t = record s.rex { rexpool = some p'; rexbalance = put from rb s.rex.rexbalance }
    out ←
        update_rex_account host votes from (core host o.proceeds) (core host o.stake_change) false
          (set_rex t s)
    end_of_sale from rex o rb out

  unfoldable pub sellrex : Name → Asset → State F → Result (State F)
  unfolding sell_now
  sellrex from rex s0 = do require_auth host from; s ← runrex host 2 s0; sell_now from rex s
