-- ===== src/Tests/Books.antt =====
-- The maintenance of the exchange at a state where a loan expires, another is renewed and an order is filled,
-- contracts/eosio.system/src/rex.cpp.
use eosio_system.Base.{refl, false, [], ◌∷◌, arith}
use eosio_system.Base.Int.{ℤ, pos, ◌+ℤ◌, ◌-ℤ◌, ◌*ℤ◌, u128, i64}
use eosio_system.State.{State}
use eosio_system.Table.{find, put, erase, first, sorted, begin}
use eosio_system.Table.Sum.{sum}
use eosio_system.Resources.{update_resource_limits}
use eosio_system.Tests.Sample.{
  no_votes, host, laws, votes, returned, alice, carol, tokens, rex, pool, state,
}
use eosio_system.Rex.Actions.Trade.{buyrex, sellrex}
use eosio_system.Rex.Trading.{buyrex-IsBooked, sellrex-IsBooked}
use eosio_system.Resources.{update_resource_limits}
use eosio_system.Rex.Funds.{transfer_to_fund}
use eosio_system.Rex.Books.{IsBooked}
use eosio_system.Rex.Upkeep.{runrex-IsBooked}
use eosio_system.Rex.Run.{runrex}
use eosio_system.Rex.Returns.{update_rex_pool, add_to_rex_return_pool}

state-IsBooked : IsBooked state.rex
unfolding ◌+ℤ◌ sum
state-IsBooked = record { pool = pool; stored = refl; split = refl; lent = refl; rex = refl }

abbrev state_after : State ℤ
state_after = returned state (runrex host 2 state)

runrex-IsBooked_example : IsBooked state_after.rex
unfolding runrex update_rex_pool eosio_system.Rex.Returns.distribute
    eosio_system.Rex.Returns.cap_change eosio_system.Rex.Returns.expire
    eosio_system.Rex.Returns.take_due eosio_system.Rex.Returns.start_pending ◌+ℤ◌ ◌*ℤ◌
    eosio_system.Rex.Returns.get_elapsed_intervals ◌-ℤ◌ eosio_system.Rex.Returns.pay_out
    eosio_system.Rex.Run.channel_namebids eosio_system.Rex.Account.channel_to_rex
    add_to_rex_return_pool eosio_system.Rex.Run.run_loans begin eosio_system.Rex.Run.run_loan i64
    u128 eosio_system.Market.get_bancor_output eosio_system.Resources.has_field
    eosio_system.Resources.is_managed update_resource_limits
    eosio_system.Rex.Loans.add_loan_to_rex_pool eosio_system.Rex.Loans.close_loan
    eosio_system.Rex.Loans.process_expired_loan eosio_system.Rex.Loans.remove_loan_from_rex_pool
    eosio_system.Rex.Loans.renew_loan eosio_system.Rex.Loans.rex_loans_available
    eosio_system.Rex.Loans.update_renewed_loan eosio_system.Rex.Pool.fill_outcome
    eosio_system.Rex.Pool.fill_rex_order eosio_system.Rex.Pool.mul_div
    eosio_system.Rex.Returns.drop_expired eosio_system.Rex.Returns.set_bucket
    eosio_system.Rex.Run.run_order eosio_system.Rex.Run.run_orders eosio_system.Rex.Run.store_filled
    erase find first put sorted transfer_to_fund
runrex-IsBooked_example = runrex-IsBooked host laws 2 state state_after state-IsBooked refl

-- The state where alice votes for a proxy.
abbrev voted : State ℤ
voted = record state {
  voting = record no_votes {
    voters =
        (
          alice,
          record {
            proxy = carol;
            producers = [];
            staked = pos 100000;
            last_vote_weight = pos 0;
            proxied_vote_weight = pos 0;
            is_proxy = false;
            flags1 = 0;
          },
        )
        ∷ [];
  };
}

voted-IsBooked : IsBooked voted.rex
unfolding ◌+ℤ◌ sum
voted-IsBooked = record { pool = pool; stored = refl; split = refl; lent = refl; rex = refl }

abbrev bought_state : State ℤ
bought_state = returned voted (buyrex host votes alice (tokens 40) voted)

buyrex-IsBooked_example : IsBooked bought_state.rex
unfolding buyrex voted-IsBooked eosio_system.Rex.Account.check_voting_requirement find
    eosio_system.Rex.Funds.transfer_from_fund eosio_system.Rex.Pool.add_to_rex_pool u128 ◌-ℤ◌
    eosio_system.Rex.Account.add_to_rex_balance i64 runrex update_rex_pool
    eosio_system.Rex.Returns.distribute eosio_system.Rex.Returns.cap_change
    eosio_system.Rex.Returns.expire eosio_system.Rex.Returns.take_due
    eosio_system.Rex.Returns.start_pending ◌*ℤ◌ eosio_system.Rex.Returns.get_elapsed_intervals ◌+ℤ◌
    eosio_system.Market.get_bancor_output eosio_system.Resources.has_field
    eosio_system.Resources.is_managed update_resource_limits eosio_system.Rex.Account.bought
    eosio_system.Rex.Account.channel_to_rex eosio_system.Rex.Account.init_rex_stake
    eosio_system.Rex.Account.settle_order eosio_system.Rex.Account.update_rex_account
    eosio_system.Rex.Actions.Trade.buy eosio_system.Rex.Buckets.add_back
    eosio_system.Rex.Buckets.add_maturing eosio_system.Rex.Buckets.get_rex_maturity
    eosio_system.Rex.Buckets.mature eosio_system.Rex.Buckets.process_rex_maturities
    eosio_system.Rex.Buckets.put_rex_savings eosio_system.Rex.Buckets.read_rex_savings
    eosio_system.Rex.Buckets.take_savings transfer_to_fund
    eosio_system.Rex.Loans.add_loan_to_rex_pool eosio_system.Rex.Loans.close_loan
    eosio_system.Rex.Loans.process_expired_loan eosio_system.Rex.Loans.remove_loan_from_rex_pool
    eosio_system.Rex.Loans.renew_loan eosio_system.Rex.Loans.rex_loans_available
    eosio_system.Rex.Loans.update_renewed_loan eosio_system.Rex.Pool.fill_outcome
    eosio_system.Rex.Pool.fill_rex_order eosio_system.Rex.Pool.grow_rex_pool
    eosio_system.Rex.Pool.mul_div eosio_system.Rex.Pool.new_rex_pool
    eosio_system.Rex.Pool.refill_rex_pool add_to_rex_return_pool
    eosio_system.Rex.Returns.drop_expired eosio_system.Rex.Returns.pay_out
    eosio_system.Rex.Returns.set_bucket eosio_system.Rex.Run.channel_namebids
    eosio_system.Rex.Run.run_loan eosio_system.Rex.Run.run_loans eosio_system.Rex.Run.run_order
    eosio_system.Rex.Run.run_orders eosio_system.Rex.Run.store_filled
    eosio_system.Stake.VotingPower.new_voter eosio_system.Stake.VotingPower.restake
    eosio_system.Stake.VotingPower.update_voting_power
    eosio_system.Stake.VotingPower.validate_b1_vesting begin erase first put sorted
buyrex-IsBooked_example =
    buyrex-IsBooked host votes laws alice (tokens 40) voted bought_state voted-IsBooked
      (ground arith) refl

abbrev sold_state : State ℤ
sold_state = returned voted (sellrex host votes alice (rex 5000) voted)

sellrex-IsBooked_example : IsBooked sold_state.rex
unfolding sellrex eosio_system.Market.get_bancor_output i64 u128 eosio_system.Resources.has_field
    eosio_system.Resources.is_managed update_resource_limits transfer_to_fund
    eosio_system.Rex.Loans.add_loan_to_rex_pool eosio_system.Rex.Loans.close_loan
    eosio_system.Rex.Loans.process_expired_loan eosio_system.Rex.Loans.remove_loan_from_rex_pool
    eosio_system.Rex.Loans.renew_loan eosio_system.Rex.Loans.rex_loans_available
    eosio_system.Rex.Loans.update_renewed_loan eosio_system.Rex.Pool.fill_outcome
    eosio_system.Rex.Pool.fill_rex_order eosio_system.Rex.Pool.mul_div
    eosio_system.Rex.Returns.drop_expired eosio_system.Rex.Returns.set_bucket
    eosio_system.Rex.Run.run_order eosio_system.Rex.Run.run_orders eosio_system.Rex.Run.store_filled
    erase find first put sorted eosio_system.Rex.Account.settle_order
    eosio_system.Rex.Account.update_rex_account eosio_system.Rex.Actions.Trade.end_of_sale
    eosio_system.Rex.Actions.Trade.enqueue eosio_system.Rex.Actions.Trade.queue_order
    eosio_system.Rex.Actions.Trade.sell_now eosio_system.Rex.Buckets.mature
    eosio_system.Rex.Buckets.process_rex_maturities eosio_system.Stake.VotingPower.new_voter
    eosio_system.Stake.VotingPower.restake eosio_system.Stake.VotingPower.update_voting_power
    eosio_system.Stake.VotingPower.validate_b1_vesting runrex update_rex_pool
    eosio_system.Rex.Returns.distribute eosio_system.Rex.Returns.cap_change
    eosio_system.Rex.Returns.expire eosio_system.Rex.Returns.take_due
    eosio_system.Rex.Returns.start_pending ◌+ℤ◌ ◌*ℤ◌ eosio_system.Rex.Returns.get_elapsed_intervals
    ◌-ℤ◌ eosio_system.Rex.Returns.pay_out eosio_system.Rex.Run.channel_namebids
    eosio_system.Rex.Account.channel_to_rex add_to_rex_return_pool eosio_system.Rex.Run.run_loans
    begin eosio_system.Rex.Run.run_loan
sellrex-IsBooked_example =
    sellrex-IsBooked host votes laws alice (rex 5000) voted sold_state voted-IsBooked refl
