-- ===== src/Tests/Voting.antt =====
-- Votes at concrete states, contracts/eosio.system/src/voting.cpp.
use eosio_system.Base.{
  ℕ, ◌≡◌, refl, true, false, not, ◌||◌, [], ◌∷◌, arith, leb, ◌==◌, if◌then◌else◌, length,
}
use eosio_system.Base.Int.{ℤ, pos, ◌+ℤ◌, ◌-ℤ◌, ◌*ℤ◌, u128, i64}
use eosio_system.Host.{Name, is_set}
use eosio_system.State.{State, VoterInfo, VoteTables}
use eosio_system.Table.{find, put}
use eosio_system.Stake.VotingPower.{update_voting_power}
use eosio_system.Voting.Weight.{propagate_weight_change, regproxy}
use eosio_system.Voting.Count.{update_votes, voteproducer}
use eosio_system.Voting.Register.{regproducer, IsRegistered, regproducer-IsRegistered}
use eosio_system.Voting.Sound.{IsRanked}
use eosio_system.Voting.Depth.{propagate_weight_change_depth}
use eosio_system.Voting.Ballot.{IsBallot, IsCast, holds_rex, counted_votes, voteproducer-IsBallot}
use eosio_system.Voting.History.{Voting, Elections, Elections-IsRanked}
use eosio_system.Tests.Sample.{host, no_votes, returned, tokens, state, alice, bob, carol}

-- carol is a producer, and nobody votes.
abbrev open_polls : State ℤ
open_polls = record state {
  voting = record no_votes {
    producers =
        (
          carol,
          record {
            total_votes = pos 0;
            is_active = true;
            unpaid_blocks = 0;
            last_claim_time = 1599990000000000;
            location = 0;
          },
        )
        ∷ [];
    producers2 =
        (carol, record { votepay_share = pos 0; last_votepay_share_update = 1599990000000000 })
        ∷ [];
  };
}

-- alice and bob stake, bob becomes a proxy and votes for carol, and alice votes for bob.
abbrev s1 : State ℤ
s1 = returned state (update_voting_power host (counted_votes host 9) alice (tokens 100) open_polls)

abbrev s2 : State ℤ
s2 = returned state (update_voting_power host (counted_votes host 9) bob (tokens 40) s1)

abbrev s3 : State ℤ
s3 = returned state (regproxy host 9 bob true s2)

abbrev s4 : State ℤ
s4 = returned state (update_votes host 9 bob 0 (carol ∷ []) true s3)

abbrev s5 : State ℤ
s5 = returned state (voteproducer host 9 alice bob [] s3)

voteproducer-IsBallot_example :
    IsBallot alice bob []
    × IsCast alice bob [] s5
    × (not (holds_rex host alice s5) || (is_set bob || leb 21 (length {A = Name} [])) ≡ true)
unfolding voteproducer eosio_system.Rex.Account.update_rex_stake regproxy find update_voting_power
    eosio_system.Stake.VotingPower.restake eosio_system.Stake.VotingPower.new_voter put ◌-ℤ◌ ◌+ℤ◌
    ◌*ℤ◌ eosio_system.Rex.Pool.mul_div u128 eosio_system.Voting.Shares.update_total_votepay_share
    i64 eosio_system.Rex.Account.check_voting_requirement
voteproducer-IsBallot_example = voteproducer-IsBallot host 9 alice bob [] s3 s5 refl

step1 : Voting host 9 open_polls s1
unfolding update_votes find regproxy update_voting_power eosio_system.Stake.VotingPower.restake
    eosio_system.Stake.VotingPower.new_voter put ◌-ℤ◌ ◌+ℤ◌ ◌*ℤ◌
    eosio_system.Voting.Shares.update_total_votepay_share voteproducer
    eosio_system.Rex.Account.update_rex_stake eosio_system.Rex.Pool.mul_div u128 i64
    eosio_system.Rex.Account.check_voting_requirement
step1 = Voting.restaked alice (tokens 100) refl

step2 : Voting host 9 s1 s2
unfolding update_votes find regproxy update_voting_power eosio_system.Stake.VotingPower.restake
    eosio_system.Stake.VotingPower.new_voter put ◌-ℤ◌ ◌+ℤ◌ ◌*ℤ◌
    eosio_system.Voting.Shares.update_total_votepay_share voteproducer
    eosio_system.Rex.Account.update_rex_stake eosio_system.Rex.Pool.mul_div u128 i64
    eosio_system.Rex.Account.check_voting_requirement
step2 = Voting.restaked bob (tokens 40) refl

step3 : Voting host 9 s2 s3
unfolding update_votes find regproxy update_voting_power eosio_system.Stake.VotingPower.restake
    eosio_system.Stake.VotingPower.new_voter put ◌-ℤ◌ ◌+ℤ◌ ◌*ℤ◌
    eosio_system.Voting.Shares.update_total_votepay_share voteproducer
    eosio_system.Rex.Account.update_rex_stake eosio_system.Rex.Pool.mul_div u128 i64
    eosio_system.Rex.Account.check_voting_requirement
step3 = Voting.registered bob true refl

step4 : Voting host 9 s3 s5
unfolding update_votes find regproxy update_voting_power eosio_system.Stake.VotingPower.restake
    eosio_system.Stake.VotingPower.new_voter put ◌-ℤ◌ ◌+ℤ◌ ◌*ℤ◌
    eosio_system.Voting.Shares.update_total_votepay_share voteproducer
    eosio_system.Rex.Account.update_rex_stake eosio_system.Rex.Pool.mul_div u128 i64
    eosio_system.Rex.Account.check_voting_requirement
step4 = Voting.voted alice bob [] refl

elections : Elections host 9 open_polls s5
elections =
    Elections.next
      (Elections.next (Elections.next (Elections.next Elections.begun step1) step2) step3) step4

open_polls-IsRanked : IsRanked (λ n. 0) open_polls.voting.voters
unfolding find
open_polls-IsRanked n = refl

Elections-IsRanked_example : (rank : Name → ℕ) × IsRanked rank s5.voting.voters
Elections-IsRanked_example = Elections-IsRanked host 9 (λ n. 0) elections open_polls-IsRanked

abbrev proxied : VoterInfo ℤ
proxied = record {
  proxy = bob;
  producers = [];
  staked = pos 100;
  last_vote_weight = pos 100;
  proxied_vote_weight = pos 0;
  is_proxy = false;
  flags1 = 0;
}

abbrev a_proxy : VoterInfo ℤ
a_proxy = record {
  proxy = 0;
  producers = carol ∷ [];
  staked = pos 40;
  last_vote_weight = pos 180;
  proxied_vote_weight = pos 100;
  is_proxy = true;
  flags1 = 0;
}

abbrev linked_polls : VoteTables ℤ
linked_polls = record open_polls.voting { voters = (alice, proxied) ∷ (bob, a_proxy) ∷ [] }

abbrev above : Name → ℕ
above n = if n == alice then 1 else 0

linked_polls-IsRanked : IsRanked above linked_polls.voters
unfolding find
linked_polls-IsRanked n = ground arith

propagate_weight_change_depth_example :
    propagate_weight_change host 200 alice proxied linked_polls
    ≡ propagate_weight_change host 2 alice proxied linked_polls
unfolding find
propagate_weight_change_depth_example =
    propagate_weight_change_depth host above 2 200 alice proxied linked_polls linked_polls-IsRanked
      refl (omega arith) (omega arith)

-- alice becomes a producer.
abbrev registered : State ℤ
registered = returned open_polls (regproducer host alice 20 840 open_polls)

regproducer-IsRegistered_example : IsRegistered host alice 840 open_polls.voting registered.voting
unfolding regproducer find
regproducer-IsRegistered_example =
    regproducer-IsRegistered host alice 20 840 open_polls registered refl (omega arith)
