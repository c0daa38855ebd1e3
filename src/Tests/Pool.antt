-- ===== src/Tests/Pool.antt =====
-- The pools of the exchange at concrete states, contracts/eosio.system/src/rex.cpp.
use eosio_system.Base.{
  ℕ, ◌+◌, ◌-◌, ◌*◌, ◌/◌, ◌≤◌, ◌<◌, ◌≡◌, ◌⊎◌, refl, false, Option, none, some, [], arith, ok,
}
use eosio_system.Base.Int.{ℤ, pos, ◌+ℤ◌, ◌-ℤ◌, ◌*ℤ◌, max_ℤ}
use eosio_system.State.{RexPool, RexBalance, RexLoan, RexTables}
use eosio_system.Table.{find, put, first}
use eosio_system.Tests.Sample.{
  host, laws, returned, tokens, rex, pool, loan, bob_rex, return_pool, tables,
}
use eosio_system.Rex.Savings.{held_in}
use eosio_system.Rex.Funds.{transfer_to_fund}
use eosio_system.Rex.Returns.{update_rex_pool, add_to_rex_return_pool}
use eosio_system.Rex.Pool.{grow_rex_pool, fill_rex_order, RexOrderOutcome}
use eosio_system.Rex.Price.{Filled, grow_rex_pool_price, fill_rex_order_price}
use eosio_system.Rex.Flow.{distribute-proceeds, update_rex_pool_pays}
use eosio_system.Rex.Pacing.{IsPaced, distribute-IsPaced}
use eosio_system.Rex.Returns.{distribute, effective_time}
use eosio_system.Rex.Loans.{process_expired_loan}
use eosio_system.Rex.Lent.{Lends, staked, process_expired_loan-Lends}

grow_rex_pool_price_example :
    (q : ℤ × RexPool) × (r' : ℕ) × (grow_rex_pool host (tokens 7) pool ≡ ok q)
    × (q.1.total_rex.amount ≡ pos r')
    × (q.0 ≡ pos (r' - 50000))
    × (50000 ≤ r')
    × (10000 * r' ≤ (10000 + 7) * 50000)
    × ((10000 + 7) * 50000 < 10000 * (r' + 1))
    × (q.1.total_lendable.amount ≡ pos (10000 + 7))
    × (q.1.total_unlent.amount ≡ pos (10000 + 7 - 1000))
    × (q.1.total_lent ≡ pool.total_lent)
grow_rex_pool_price_example =
    grow_rex_pool_price host (tokens 7) pool 7 10000 50000 1000 refl refl refl refl (omega arith)
      (omega arith) (omega arith) (omega arith) (omega arith)

fill_rex_order_price_example :
    (q : RexOrderOutcome × RexBalance × RexPool) × (v : ℕ) × (fill_rex_order (pos 1007) bob_rex pool
      ≡ ok q)
    × (v * 50000 ≤ 1007 * 10000)
    × (1007 * 10000 < (v + 1) * 50000)
    × ((v + 1000 / 10 ≤ 9000) × Filled 1007 v 10000 50000 1000 bob_rex pool q
        ⊎ (9000 < v + 1000 / 10)
          × (q.0.success ≡ false)
          × (q.0.proceeds ≡ pos 0)
          × (q.1 ≡ bob_rex)
          × (q.2 ≡ pool))
fill_rex_order_price_example =
    fill_rex_order_price bob_rex pool 1007 20000 10000 50000 1000 9000 refl refl refl refl refl refl
      (omega arith) (omega arith) (omega arith) (omega arith) (omega arith)

distribute-proceeds_example :
    let (rp, b, change) = distribute 1600000000 return_pool tables.rexretbuckets in
    rp.proceeds +ℤ change ≡ pos 4320
distribute-proceeds_example = distribute-proceeds 1600000000 return_pool tables.rexretbuckets

return_pool-IsPaced : IsPaced return_pool tables.rexretbuckets
unfolding held_in ◌+ℤ◌
return_pool-IsPaced = record {
  rate = refl;
  pending_nonneg = ground arith;
  pending_time = omega arith;
  ascending = ground arith;
}

distribute-IsPaced_example :
    let (rp, b, change) = distribute 1600000000 return_pool tables.rexretbuckets in IsPaced rp b
distribute-IsPaced_example =
    distribute-IsPaced 1600000000 return_pool tables.rexretbuckets (omega arith) return_pool-IsPaced

abbrev paid_out : RexTables
paid_out = returned tables (update_rex_pool host tables)

update_rex_pool_pays_example :
    let (rp, b, change) = distribute (effective_time host) return_pool tables.rexretbuckets in
    (p : RexPool) × (paid_out
      ≡ record tables { rexpool = some p; rexretpool = some rp; rexretbuckets = b })
    × (rp.proceeds +ℤ change ≡ pos 4320)
    × (p.total_unlent.amount ≡ pos 9000 +ℤ max_ℤ (pos 0) change)
    × (p.total_lendable.amount ≡ p.total_unlent.amount +ℤ p.total_lent.amount)
    × (p.total_lent ≡ tokens 1000)
    × (p.total_rex ≡ rex 50000)
    × (p.total_rent ≡ tokens 500)
unfolding update_rex_pool ◌+ℤ◌ distribute eosio_system.Rex.Returns.cap_change
    eosio_system.Rex.Returns.expire eosio_system.Rex.Returns.take_due
    eosio_system.Rex.Returns.start_pending ◌*ℤ◌ eosio_system.Rex.Returns.get_elapsed_intervals ◌-ℤ◌
    eosio_system.Rex.Returns.pay_out transfer_to_fund eosio_system.Rex.Loans.close_loan
    eosio_system.Rex.Loans.update_renewed_loan eosio_system.Rex.Returns.drop_expired
    eosio_system.Rex.Returns.set_bucket find put
update_rex_pool_pays_example =
    update_rex_pool_pays host laws pool return_pool tables paid_out refl refl (omega arith) refl
      refl

abbrev no_orders : RexTables
no_orders = record tables { rexorders = [] }

abbrev renewed : ℤ × Option RexLoan × RexTables
renewed =
    returned (pos 0, none, no_orders)
      (process_expired_loan host (loan 600 100 1599000000000000) no_orders)

process_expired_loan-Lends_example :
    Lends no_orders renewed.2 pool renewed.0 × (staked renewed.1 ≡ pos 600 +ℤ renewed.0)
unfolding process_expired_loan eosio_system.Market.get_bancor_output ◌*ℤ◌
    eosio_system.Rex.Loans.remove_loan_from_rex_pool ◌+ℤ◌ ◌-ℤ◌
    eosio_system.Rex.Loans.rex_loans_available first eosio_system.Rex.Loans.renew_loan
    eosio_system.Rex.Loans.add_loan_to_rex_pool add_to_rex_return_pool update_rex_pool distribute
    eosio_system.Rex.Returns.cap_change eosio_system.Rex.Returns.expire
    eosio_system.Rex.Returns.take_due eosio_system.Rex.Returns.start_pending
    eosio_system.Rex.Returns.get_elapsed_intervals transfer_to_fund
    eosio_system.Rex.Loans.close_loan eosio_system.Rex.Loans.update_renewed_loan
    eosio_system.Rex.Returns.drop_expired eosio_system.Rex.Returns.pay_out
    eosio_system.Rex.Returns.set_bucket find put
process_expired_loan-Lends_example =
    process_expired_loan-Lends host laws (loan 600 100 1599000000000000) pool no_orders renewed.2
      renewed.0 renewed.1 refl refl
