-- ===== src/Stake/VotingPower.antt =====
-- The stake of a voter, contracts/eosio.system/src/delegate_bandwidth.cpp, `update_voting_power` and
-- `validate_b1_vesting`.
use eosio_system.Base.{
  ◌*◌, ◌≡◌, false, ◌||◌, Option, none, some, [], arith, ltb, ◌==◌, if◌then◌else◌, Result, ok, ◌>>◌,
  check, length,
}
use eosio_system.Base.Int.{ℤ, pos, ◌+ℤ◌, ◌-ℤ◌, leb_ℤ}
use eosio_system.Host.{Host, Name, is_set, Asset, now_sec, seconds_per_year, b1}
use eosio_system.State.{State, VoterInfo}
use eosio_system.Table.{find, put}
use eosio_system.Votes.{Votes}

module _ (host : Host) where
  open host use {F, of_int, fmul, fdiv, to_i64}

  abbrev max_claimable : ℤ
  max_claimable = pos 1000000000000

  -- What the account `b1` must keep staked.
  unfoldable pub validate_b1_vesting : ℤ → Result (Unit {0})
  validate_b1_vesting stake =
      let elapsed = of_int (pos (now_sec host) -ℤ pos 1527811200) in
      let claimable =
        to_i64
          (fdiv (fmul (of_int max_claimable) elapsed) (of_int (pos (10 * seconds_per_year)))) in
      check (leb_ℤ (max_claimable -ℤ claimable) stake)
        "b1 can only claim their tokens over 10 years"

  -- A voter's row when it is created, `voter_info{}` but for the stake.
  unfoldable pub new_voter : ℤ → VoterInfo F
  new_voter staked = record {
    proxy = 0;
    producers = [];
    staked = staked;
    last_vote_weight = of_int (pos 0);
    proxied_vote_weight = of_int (pos 0);
    is_proxy = false;
    flags1 = 0;
  }

  -- The row with the new stake.
  unfoldable pub restake : ℤ → Option (VoterInfo F) → VoterInfo F
  restake delta none = new_voter delta
  restake delta (some v) = record v { staked = v.staked +ℤ delta }

  abbrev pub set_voter : Name → VoterInfo F → State F → State F
  set_voter owner v s = record s {
    voting = record s.voting { voters = put owner v s.voting.voters };
  }

  module _ (votes : Votes host) where
    open votes use {update_votes, update_votes_frame}

    unfoldable pub update_voting_power : Name → Asset → State F → Result (State F)
    update_voting_power voter total_update s = do
      let v = restake total_update.amount (find voter s.voting.voters)
      check (leb_ℤ (pos 0) v.staked) "stake for voting cannot be negative"
      if voter == b1 then validate_b1_vesting v.staked else ok tt
      let s' = set_voter voter v s
      if ltb 0 (length v.producers) || is_set v.proxy
          then update_votes voter v.proxy v.producers false s'
          else ok s'

    -- A change of a voter's stake that does not abort leaves every table but those of voting alone,
    -- and sends nothing.
    pub update_voting_power_frame :
        (voter : Name) (delta : Asset) (s s' : State F)
        → update_voting_power voter delta s ≡ ok s'
        → (s'.rex ≡ s.rex)
          × (s'.stake ≡ s.stake)
          × (s'.ram ≡ s.ram)
          × (s'.auctions ≡ s.auctions)
          × (s'.sent ≡ s.sent)
    unfolding update_voting_power
    update_voting_power_frame voter delta s s' h =
        let v = restake delta.amount (find voter s.voting.voters) in
        ground (arith, update_votes_frame voter v.proxy v.producers false (set_voter voter v s) s')
