-- ===== src/Rex/Account.antt =====
-- What REX actions do to an account and to the tables around the exchange, contracts/eosio.system/src/rex.cpp:
-- `update_rex_account`, `channel_to_rex`, `add_to_rex_balance` and `check_voting_requirement`.
use eosio_system.Base.{
  Bool, false, not, ◌||◌, Option, none, some, [], leb, if◌then◌else◌, Result, ok, ◌>>=◌, check,
  length, String,
}
use eosio_system.Base.Int.{ℤ, pos, ◌+ℤ◌, ◌-ℤ◌, ltb_ℤ, eqb_ℤ}
use eosio_system.Host.{
  Host, Name, is_set, Asset, asset, add_amount, set_amount, Sent, core, rex_account,
}
use eosio_system.State.{State, send, RexBalance, RexOrder, RexTables}
use eosio_system.Table.{Table, find, put, erase}
use eosio_system.Votes.{Votes}
use eosio_system.Stake.VotingPower.{update_voting_power}
use eosio_system.Rex.Pool.{the_pool, rex_available, mul_div}
use eosio_system.Rex.Buckets.{add_maturing}
use eosio_system.Rex.Returns.{add_to_rex_return_pool}
use eosio_system.Rex.Funds.{transfer_to_fund}

abbrev pub set_rex : {F : Type 0} → RexTables → State F → State F
set_rex t s = record s { rex = t }

-- The part of a row's order that is due: what is scheduled, the proceeds and the stake, and the orders.
unfoldable pub settle_order : Name → Table RexOrder → ℤ × ℤ × ℤ × Table RexOrder
settle_order owner orders = elim (find owner orders) [
  | none ↦ (pos 0, pos 0, pos 0, orders)
  | some o ↦
      if o.is_open
      then (o.rex_requested.amount, pos 0, pos 0, orders)
      else (pos 0, o.proceeds.amount, o.stake_change.amount, erase owner orders)
]

-- `channel_namebid_to_rex`: the fees wait in the pool for the next `runrex`.
unfoldable pub channel_namebid_to_rex : ℤ → RexTables → RexTables
channel_namebid_to_rex highest_bid t = elim t.rexpool [
  | none ↦ t
  | some p ↦
      if ltb_ℤ (pos 0) p.total_rex.amount
      then record t {
        rexpool = some (record p { namebid_proceeds = add_amount p.namebid_proceeds highest_bid });
      }
      else t
]

-- The value of the REX of a voter's row, which `update_rex_stake` stores in it: the change, and the tables.
unfoldable pub revalue : Name → RexTables → Result (ℤ × RexTables)
revalue voter t = elim (find voter t.rexbalance) [
  | none ↦ ok (pos 0, t)
  | some rb ↦ (do
    p ← the_pool t
    current ← mul_div rb.rex_balance.amount p.total_lendable.amount p.total_rex.amount
    let rb' = record rb { vote_stake = set_amount rb.vote_stake current }
    ok (current -ℤ rb.vote_stake.amount, record t { rexbalance = put voter rb' t.rexbalance }))
]

unfoldable pub update_rex_stake : {F : Type 0} → Name → State F → Result (State F)
unfolding revalue
update_rex_stake voter s = do
  out ← (if rex_available s.rex then revalue voter s.rex else ok (pos 0, s.rex))
  let s1 = set_rex out.1 s
  ok (elim (find voter s.voting.voters) [
    | none ↦ s1
    | some v ↦ record s1 {
      voting = record s.voting {
        voters =
            if eqb_ℤ out.0 (pos 0)
            then s.voting.voters
            else put voter (record v { staked = v.staked +ℤ out.0 }) s.voting.voters;
      };
    }
  ])

module _ (host : Host) where
  open host use {F, asset_sub}

  unfoldable pub check_voting_requirement : Name → String → State F → Result (Unit {0})
  check_voting_requirement owner error_msg s =
      check
        (elim (find owner s.voting.voters) [
          | none ↦ false
          | some v ↦ is_set v.proxy || leb 21 (length v.producers)
        ])
        error_msg

  unfoldable pub channel_to_rex : Name → Asset → State F → Result (State F)
  channel_to_rex from amount s = do
    t ← (if rex_available s.rex then add_to_rex_return_pool host amount s.rex else ok s.rex)
    ok (
        if rex_available s.rex
        then send (Sent.transfer from rex_account amount) (set_rex t s)
        else s)

  -- The row of the buyer with the REX received, and the stake that it counted before.
  unfoldable pub bought : Asset → Asset → Option RexBalance → RexTables → Result RexBalance
  bought payment rex_received none t = ok (record {
    vote_stake = payment;
    rex_balance = rex_received;
    matured_rex = pos 0;
    rex_maturities = [];
  })
  bought payment rex_received (some rb) t = do
    p ← the_pool t
    let balance = add_amount rb.rex_balance rex_received.amount
    stake ← mul_div balance.amount p.total_lendable.amount p.total_rex.amount
    ok (record rb { rex_balance = balance; vote_stake = set_amount rb.vote_stake stake })

  unfoldable pub init_rex_stake : Option RexBalance → ℤ
  init_rex_stake none = pos 0
  init_rex_stake (some rb) = rb.vote_stake.amount

  -- The change of the stake, and the tables.
  unfoldable pub add_to_rex_balance : Name → Asset → Asset → RexTables → Result (Asset × RexTables)
  unfolding bought init_rex_stake
  add_to_rex_balance owner payment rex_received t = do
    let old = find owner t.rexbalance
    row ← bought payment rex_received old t
    delta ← asset_sub (core host row.vote_stake.amount) (core host (init_rex_stake old))
    let row' = add_maturing host rex_received.amount row
    ok (delta, record t { rexbalance = put owner row' t.rexbalance })

  module _ (votes : Votes host) where
    -- The REX that is scheduled for sale, and the state.
    unfoldable pub update_rex_account :
        Name → Asset → Asset → Bool → State F → Result (Asset × State F)
    update_rex_account owner proceeds delta_stake force_vote_update s = do
      let (in_order, order_proceeds, order_stake, orders) = settle_order owner s.rex.rexorders
      let to_fund = add_amount proceeds order_proceeds
      let to_stake = add_amount delta_stake order_stake
      funds ←
          (if ltb_ℤ (pos 0) to_fund.amount
            then transfer_to_fund host owner to_fund s.rex.rexfunds
            else ok s.rex.rexfunds)
      let s1 = set_rex (record s.rex { rexorders = orders; rexfunds = funds }) s
      s2 ←
          (if force_vote_update || not (eqb_ℤ to_stake.amount (pos 0))
            then update_voting_power host votes owner to_stake s1
            else ok s1)
      ok (asset in_order 0x5845_5204, s2)
