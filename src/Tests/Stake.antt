-- ===== src/Tests/Stake.antt =====
-- Staking at concrete states, contracts/eosio.system/src/delegate_bandwidth.cpp.
use eosio_system.Base.{ℕ, ◌+◌, ◌*◌, ◌≡◌, ◌≢◌, refl, false, arith, ok}
use eosio_system.Base.Int.{ℤ, pos, ◌+ℤ◌, ◌-ℤ◌, u128, i64}
use eosio_system.State.{State}
use eosio_system.Table.{find, put, erase}
use eosio_system.Table.Sum.{sum}
use eosio_system.Votes.{Votes}
use eosio_system.Stake.Change.{changebw, delegatebw, undelegatebw, refund}
use eosio_system.Stake.Sums.{staked_in, all_delegated, all_weights}
use eosio_system.Stake.Conserved.{owed, changebw-owed}
use eosio_system.Stake.History.{later, History, Staking, IsBacked, History-IsBacked}
use eosio_system.Stake.Delay.{undelegatebw-delay}
use eosio_system.Tests.Sample.{host, laws, votes, kept, returned, tokens, state, alice, bob}

-- alice stakes for bob, and takes a part back at once and the rest of the CPU a week later.
abbrev staked : State ℤ
staked = returned state (changebw host votes alice bob (tokens 30) (tokens 20) false state)

changebw-owed_example :
    (owed staked +ℤ staked_in state.sent ≡ owed state +ℤ staked_in staked.sent)
    × (all_weights staked.stake.userres ≡ all_weights state.stake.userres +ℤ (pos 30 +ℤ pos 20))
    × (all_delegated (staked.stake.delband alice)
        ≡ all_delegated (state.stake.delband alice) +ℤ (pos 30 +ℤ pos 20))
unfolding changebw ◌+ℤ◌ find eosio_system.Rex.Account.update_rex_stake
    eosio_system.Resources.is_managed eosio_system.Rex.Pool.mul_div u128
    eosio_system.Stake.VotingPower.update_voting_power eosio_system.Stake.VotingPower.restake
    eosio_system.Stake.VotingPower.new_voter
changebw-owed_example =
    changebw-owed host laws votes alice bob (tokens 30) (tokens 20) false state staked refl refl

abbrev votes_at : (t : ℕ) → Votes (later host t)
votes_at t = record {
  update_votes = λ voter proxy producers voting s. ok s;
  update_votes_frame = kept;
}

abbrev day : ℕ → ℕ
day n = 1600000000000000 + n * 86400000000

abbrev s1 : State ℤ
s1 = returned state (
    delegatebw (later host (day 0)) (votes_at (day 0)) alice bob (tokens 30) (tokens 20) false
      state)

abbrev s2 : State ℤ
s2 =
    returned state
      (undelegatebw (later host (day 0)) (votes_at (day 0)) alice bob (tokens 10) (tokens 5) s1)

abbrev s3 : State ℤ
s3 =
    returned state
      (undelegatebw (later host (day 1)) (votes_at (day 1)) alice bob (tokens 0) (tokens 15) s2)

abbrev s4 : State ℤ
s4 = returned state (refund (later host (day 7)) alice s3)

step1 : Staking host votes_at state s1
unfolding delegatebw undelegatebw refund ◌+ℤ◌ ◌-ℤ◌ find eosio_system.Rex.Account.update_rex_stake
    eosio_system.Resources.is_managed eosio_system.Rex.Pool.mul_div u128
    eosio_system.Stake.VotingPower.update_voting_power eosio_system.Stake.VotingPower.restake
    eosio_system.Stake.VotingPower.new_voter put erase i64
step1 = Staking.delegated (day 0) alice bob (tokens 30) (tokens 20) false refl refl

step2 : Staking host votes_at s1 s2
unfolding delegatebw undelegatebw refund ◌+ℤ◌ ◌-ℤ◌ find eosio_system.Rex.Account.update_rex_stake
    eosio_system.Resources.is_managed eosio_system.Rex.Pool.mul_div u128
    eosio_system.Stake.VotingPower.update_voting_power eosio_system.Stake.VotingPower.restake
    eosio_system.Stake.VotingPower.new_voter put erase i64
step2 = Staking.undelegated (day 0) alice bob (tokens 10) (tokens 5) refl refl

step3 : Staking host votes_at s2 s3
unfolding delegatebw undelegatebw refund ◌+ℤ◌ ◌-ℤ◌ find eosio_system.Rex.Account.update_rex_stake
    eosio_system.Resources.is_managed eosio_system.Rex.Pool.mul_div u128
    eosio_system.Stake.VotingPower.update_voting_power eosio_system.Stake.VotingPower.restake
    eosio_system.Stake.VotingPower.new_voter put erase i64
step3 = Staking.undelegated (day 1) alice bob (tokens 0) (tokens 15) refl refl

step4 : Staking host votes_at s3 s4
unfolding delegatebw undelegatebw refund ◌+ℤ◌ ◌-ℤ◌ find eosio_system.Rex.Account.update_rex_stake
    eosio_system.Resources.is_managed eosio_system.Rex.Pool.mul_div u128
    eosio_system.Stake.VotingPower.update_voting_power eosio_system.Stake.VotingPower.restake
    eosio_system.Stake.VotingPower.new_voter put erase i64
step4 = Staking.refunded (day 7) alice refl refl

history : History host votes_at state s4
history =
    History.next (History.next (History.next (History.next History.begun step1) step2) step3) step4

state-IsBacked : IsBacked (pos 10000) state
unfolding sum eosio_system.Sends.net_in ◌+ℤ◌
state-IsBacked = refl

History-IsBacked_example : IsBacked (pos 10000) s4
History-IsBacked_example = History-IsBacked host laws votes_at (pos 10000) history state-IsBacked

undelegatebw-delay_example : refund (later host (day 2)) alice s2 ≢ ok s4
unfolding undelegatebw ◌+ℤ◌ ◌-ℤ◌ find delegatebw eosio_system.Rex.Account.update_rex_stake
    eosio_system.Resources.is_managed eosio_system.Rex.Pool.mul_div u128
    eosio_system.Stake.VotingPower.update_voting_power eosio_system.Stake.VotingPower.restake
    eosio_system.Stake.VotingPower.new_voter put erase i64
undelegatebw-delay_example =
    undelegatebw-delay host laws votes alice bob (tokens 10) (tokens 5) (day 2) s1 s2 s4 refl refl
      refl (omega arith)
