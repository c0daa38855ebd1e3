-- ===== src/Tests/Savings.antt =====
-- Moving REX to savings and back at a concrete state, contracts/eosio.system/src/rex.cpp.
use eosio_system.Base.{◌≡◌, refl, [], arith, ok, ◌>>=◌}
use eosio_system.Base.Int.{ℤ, pos, ◌+ℤ◌, ◌-ℤ◌, ◌*ℤ◌, u128, i64}
use eosio_system.Host.{Asset}
use eosio_system.State.{State, RexBalance}
use eosio_system.Table.{find, put, erase, first, sorted, begin}
use eosio_system.Resources.{update_resource_limits}
use eosio_system.Tests.Sample.{host, votes, returned, bob, rex, bob_rex, state, tokens}
use eosio_system.Tests.Rex.{in_time, bob_rex-IsSound}
use eosio_system.Rex.Buckets.{take_savings}
use eosio_system.Rex.Funds.{transfer_to_fund}
use eosio_system.Rex.Run.{runrex}
use eosio_system.Rex.Returns.{update_rex_pool, add_to_rex_return_pool}
use eosio_system.Rex.Moves.{savings, IsSound}
use eosio_system.Rex.Actions.{set_balance, no_change, mvtosavings, mvfrsavings}
use eosio_system.Rex.SavingsMoves.{mvtosavings_moves, mvfrsavings_moves}

-- bob has no order.
abbrev quiet : State ℤ
quiet = record state { rex = record state.rex { rexorders = [] } }

-- A loan expires and another is renewed.
abbrev maintained : State ℤ
maintained = returned quiet (runrex host 2 quiet)

abbrev updated : Asset × State ℤ
updated = returned (tokens 0, maintained) (no_change host votes bob maintained)

mvtosavings_moves_example :
    (rb' : RexBalance) × (mvtosavings host votes bob (rex 1000) quiet
      ≡ ok (set_balance bob rb' updated.1))
    × IsSound host rb'
    × (savings rb' ≡ savings bob_rex +ℤ pos 1000)
    × (rb'.rex_balance ≡ bob_rex.rex_balance)
unfolding runrex update_rex_pool eosio_system.Rex.Returns.distribute
    eosio_system.Rex.Returns.cap_change eosio_system.Rex.Returns.expire
    eosio_system.Rex.Returns.take_due eosio_system.Rex.Returns.start_pending ◌+ℤ◌ ◌*ℤ◌
    eosio_system.Rex.Returns.get_elapsed_intervals ◌-ℤ◌ eosio_system.Rex.Returns.pay_out
    eosio_system.Rex.Run.channel_namebids eosio_system.Rex.Account.channel_to_rex
    add_to_rex_return_pool eosio_system.Rex.Run.run_loans begin eosio_system.Rex.Run.run_loan i64
    u128 eosio_system.Market.get_bancor_output eosio_system.Resources.has_field
    eosio_system.Resources.is_managed update_resource_limits
    eosio_system.Rex.Loans.add_loan_to_rex_pool eosio_system.Rex.Loans.close_loan
    eosio_system.Rex.Loans.process_expired_loan eosio_system.Rex.Loans.remove_loan_from_rex_pool
    eosio_system.Rex.Loans.renew_loan eosio_system.Rex.Loans.rex_loans_available
    eosio_system.Rex.Loans.update_renewed_loan eosio_system.Rex.Pool.fill_outcome
    eosio_system.Rex.Pool.fill_rex_order eosio_system.Rex.Pool.mul_div
    eosio_system.Rex.Returns.drop_expired eosio_system.Rex.Returns.set_bucket
    eosio_system.Rex.Run.run_order eosio_system.Rex.Run.run_orders eosio_system.Rex.Run.store_filled
    erase find first put sorted transfer_to_fund take_savings
    eosio_system.Rex.Account.update_rex_account eosio_system.Rex.Account.settle_order
mvtosavings_moves_example =
    mvtosavings_moves host votes in_time bob 1000 bob_rex updated quiet maintained refl refl refl
      refl bob_rex-IsSound (omega arith) (ground arith) (ground arith)

mvfrsavings_moves_example :
    (rb' : RexBalance) × (mvfrsavings host votes bob (rex 7000) quiet
      ≡ (no_change host votes bob (set_balance bob rb' maintained) >>= λ out. ok out.1))
    × IsSound host rb'
    × (savings rb' +ℤ pos 7000 ≡ savings bob_rex)
    × (rb'.rex_balance ≡ bob_rex.rex_balance)
unfolding runrex update_rex_pool eosio_system.Rex.Returns.distribute
    eosio_system.Rex.Returns.cap_change eosio_system.Rex.Returns.expire
    eosio_system.Rex.Returns.take_due eosio_system.Rex.Returns.start_pending ◌+ℤ◌ ◌*ℤ◌
    eosio_system.Rex.Returns.get_elapsed_intervals ◌-ℤ◌ eosio_system.Rex.Returns.pay_out
    eosio_system.Rex.Run.channel_namebids eosio_system.Rex.Account.channel_to_rex
    add_to_rex_return_pool eosio_system.Rex.Run.run_loans begin eosio_system.Rex.Run.run_loan i64
    u128 eosio_system.Market.get_bancor_output eosio_system.Resources.has_field
    eosio_system.Resources.is_managed update_resource_limits
    eosio_system.Rex.Loans.add_loan_to_rex_pool eosio_system.Rex.Loans.close_loan
    eosio_system.Rex.Loans.process_expired_loan eosio_system.Rex.Loans.remove_loan_from_rex_pool
    eosio_system.Rex.Loans.renew_loan eosio_system.Rex.Loans.rex_loans_available
    eosio_system.Rex.Loans.update_renewed_loan eosio_system.Rex.Pool.fill_outcome
    eosio_system.Rex.Pool.fill_rex_order eosio_system.Rex.Pool.mul_div
    eosio_system.Rex.Returns.drop_expired eosio_system.Rex.Returns.set_bucket
    eosio_system.Rex.Run.run_order eosio_system.Rex.Run.run_orders eosio_system.Rex.Run.store_filled
    erase find first put sorted transfer_to_fund take_savings
    eosio_system.Rex.Account.update_rex_account eosio_system.Rex.Account.settle_order
mvfrsavings_moves_example =
    mvfrsavings_moves host votes in_time bob 7000 bob_rex quiet maintained refl refl refl
      bob_rex-IsSound (omega arith) (ground arith)
