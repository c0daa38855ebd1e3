-- ===== src/Rex/Run.antt =====
-- The maintenance that most REX actions begin with, contracts/eosio.system/src/rex.cpp, `runrex`.
use eosio_system.Base.{
  ℕ, zero, suc, false, Option, none, some, [], ◌∷◌, ltb, if◌then◌else◌, Result, ok, ◌>>=◌, ◌>>◌,
  check,
}
use eosio_system.Base.Int.{ℤ, pos, ltb_ℤ, eqb_ℤ}
use eosio_system.Host.{Host, Name, set_amount, Sent, core, names_account}
use eosio_system.State.{State, send, RexPool, RexBalance, RexLoan, RexOrder, RexTables}
use eosio_system.Table.{Table, find, put, erase, sorted, begin}
use eosio_system.Resources.{update_resource_limits}
use eosio_system.Rex.Pool.{the_pool, rex_system_initialized, fill_rex_order, RexOrderOutcome}
use eosio_system.Rex.Returns.{update_rex_pool}
use eosio_system.Rex.Loans.{by_time, process_expired_loan}
use eosio_system.Rex.Account.{set_rex, channel_to_rex}

-- The two tables of loans.
pub data Kind : Type 0 where
  cpu net : Kind

abbrev pub loans_of : Kind → RexTables → Table RexLoan
loans_of Kind.cpu t = t.cpu_loans
loans_of Kind.net t = t.net_loans

abbrev pub set_loans : Kind → Table RexLoan → RexTables → RexTables
set_loans Kind.cpu l t = record t { cpu_loans = l }
set_loans Kind.net l t = record t { net_loans = l }

-- `idx.modify` of a renewed loan, `erase` of a closed one.
abbrev pub store_loan : ℕ → Option RexLoan → Table RexLoan → Table RexLoan
store_loan num none l = erase num l
store_loan num (some loan) l = put num loan l

-- A change of the limit of the loan's resource.
abbrev pub net_delta : Kind → ℤ → ℤ
net_delta Kind.cpu d = pos 0
net_delta Kind.net d = d

abbrev pub cpu_delta : Kind → ℤ → ℤ
cpu_delta Kind.cpu d = d
cpu_delta Kind.net d = pos 0

abbrev pub expiry : RexLoan → ℕ
expiry l = l.expiration

module _ (host : Host) where
  open host use {F, now}

  -- One round of the loop over the expired loans.
  unfoldable pub run_loan : Kind → ℕ → RexLoan → State F → Result (State F)
  run_loan k num loan s = do
    (delta, after, t) ← process_expired_loan host loan s.rex
    let s1 = set_rex (set_loans k (store_loan num after (loans_of k t)) t) s
    if eqb_ℤ delta (pos 0)
        then ok s1
        else update_resource_limits host loan.from loan.receiver (net_delta k delta)
            (cpu_delta k delta) s1

  unfoldable pub run_loans : Kind → ℕ → State F → Result (State F)
  run_loans k zero s = ok s
  run_loans k (suc n) s = elim (begin expiry (loans_of k s.rex)) [
    | none ↦ ok s
    | some r ↦
        if ltb now (r.1).expiration then ok s else run_loan k r.0 r.1 s >>= (λ s'. run_loans k n s')
  ]

  -- What filling an order does to the tables and to what is sent.
  unfoldable pub store_filled :
      Name → RexOrder → RexOrderOutcome × RexBalance × RexPool → State F → State F
  store_filled owner order (o, rb, p) s =
      if o.success
      then send (Sent.orderresult owner (core host o.proceeds)) (
          set_rex
            (record s.rex {
              rexpool = some p;
              rexbalance = put owner rb s.rex.rexbalance;
              rexorders =
                  put owner
                    (record order {
                      proceeds = set_amount order.proceeds o.proceeds;
                      stake_change = set_amount order.stake_change o.stake_change;
                      is_open = false;
                    })
                    s.rex.rexorders;
            })
            s)
      else s

  unfoldable pub run_order : Name → RexOrder → State F → Result (State F)
  unfolding store_filled
  run_order owner order s = elim (find owner s.rex.rexbalance) [
    | none ↦ ok s
    | some rb ↦ (do
      p ← the_pool s.rex
      out ← fill_rex_order order.rex_requested.amount rb p
      ok (store_filled owner order out s))
  ]

  -- The loop over the orders, in the order of the time index when it starts; only the order itself is
  -- changed in a round.
  unfoldable pub run_orders : ℕ → Table RexOrder → State F → Result (State F)
  run_orders n [] s = ok s
  run_orders zero (r ∷ rest) s = ok s
  run_orders (suc n) ((owner, order) ∷ rest) s =
      if order.is_open then run_order owner order s >>= (λ s'. run_orders n rest s') else ok s

  -- Fees of name auctions that wait for the exchange.
  unfoldable pub channel_namebids : State F → Result (State F)
  channel_namebids s = do
    p ← the_pool s.rex
    if ltb_ℤ (pos 0) p.namebid_proceeds.amount
        then (do
          s1 ← channel_to_rex host names_account p.namebid_proceeds s
          p1 ← the_pool s1.rex
          let p2 = record p1 { namebid_proceeds = set_amount p1.namebid_proceeds (pos 0) }
          ok (set_rex (record s1.rex { rexpool = some p2 }) s1))
        else ok s

  unfoldable pub runrex : ℕ → State F → Result (State F)
  runrex max s = do
    check (rex_system_initialized s.rex) "rex system not initialized yet"
    t ← update_rex_pool host s.rex
    s1 ← channel_namebids (set_rex t s)
    s2 ← run_loans Kind.cpu max s1
    s3 ← run_loans Kind.net max s2
    run_orders max (sorted by_time s3.rex.rexorders) s3
