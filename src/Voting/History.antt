-- ===== src/Voting/History.antt =====
-- Any history of votes, of proxies that come and go, and of changes of stake,
-- contracts/eosio.system/src/voting.cpp and delegate_bandwidth.cpp.
use eosio_system.Base.{
  ==_iff, ok_eq, taken, not_taken, ℕ, ◌≡◌, ◌∙◌, refl, sym, ap, inl, inr, Bool, false, ◌||◌, Option,
  none, some, List, ltb, ◌==◌, if◌then◌else◌, Bool-cases, ok, check, >>=-eq-ok, >>-eq-ok, length,
}
use eosio_system.Base.Int.{ℤ, pos, ◌+ℤ◌, leb_ℤ}
use eosio_system.Host.{Host, Name, is_set, Asset, b1}
use eosio_system.State.{State, VoterInfo, VoteTables}
use eosio_system.Table.{find-put_same, Table, find, put}
use eosio_system.Stake.VotingPower.{
  new_voter, restake, set_voter, validate_b1_vesting, update_voting_power,
}
use eosio_system.Voting.Weight.{regproxy}
use eosio_system.Voting.Count.{recount, update_votes, voteproducer}
use eosio_system.Voting.Links.{link, SameLinks, put-link, put-SameLinks}
use eosio_system.Voting.Relink.{recount-link}
use eosio_system.Voting.Sound.{
  IsRanked, SameLinks-IsRanked, unlinked-IsRanked, voteproducer-IsRanked, regproxy-IsRanked,
}
use eosio_system.Voting.Ballot.{counted_votes}

-- One action that does not abort: a vote, a proxy that registers or resigns, or a change of stake.
pub data Voting (host : Host) (depth : ℕ) : State host.F → State host.F → Type 0 where
  voted :
      (voter proxy : Name) (producers : List Name) {s s' : State host.F}
      → voteproducer host depth voter proxy producers s ≡ ok s'
      → Voting host depth s s'
  registered :
      (proxy : Name) (isproxy : Bool) {s s' : State host.F}
      → regproxy host depth proxy isproxy s ≡ ok s'
      → Voting host depth s s'
  restaked :
      (voter : Name) (change : Asset) {s s' : State host.F}
      → update_voting_power host (counted_votes host depth) voter change s ≡ ok s'
      → Voting host depth s s'

pub data Elections (host : Host) (depth : ℕ) (s : State host.F) : State host.F → Type 0 where
  begun : Elections host depth s s
  next :
      {t u : State host.F}
      → Elections host depth s t
      → Voting host depth t u
      → Elections host depth s u

same_vote :
    {F : Type 0} (voter n : Name) (v : VoterInfo F) (t : Table (VoterInfo F))
    → find voter t ≡ some v
    → (if voter == n then some (v.proxy, v.is_proxy) else link t n) ≡ link t n
same_vote voter n v t here = elim (Bool-cases (voter == n)) [
  | inr e ↦ rw e refl
  | inl e ↦
      let there : link t voter ≡ some (v.proxy, v.is_proxy) = rw here refl in
      rw e (sym there ∙ ap (λ x. link t x) ((==_iff voter n).0 e))
]

same_row :
    {F : Type 0} (o : Option (VoterInfo F)) (v w : VoterInfo F)
    → o ≡ some v
    → o ≡ some w
    → w.is_proxy ≡ v.is_proxy
same_row none v w e f = cc
same_row (some u) v w e f = cc

same_result :
    {F : Type 0} (s s' : State F) (t : VoteTables F) (voter : Name) (v w : VoterInfo F)
    → s' ≡ record s { voting = t }
    → find voter s.voting.voters ≡ some v
    → find voter s.voting.voters ≡ some w
    → ((n : Name)
        → link t.voters n
          ≡ (if voter == n then some (v.proxy, w.is_proxy) else link s.voting.voters n))
    → SameLinks s.voting.voters s'.voting.voters
same_result s s' t voter v w e here found linked n =
    let same : w.is_proxy ≡ v.is_proxy = same_row (find voter s.voting.voters) v w here found in
    rw e (
      linked n
      ∙ ap (λ b. if voter == n then some (v.proxy, b) else link s.voting.voters n) same
      ∙ same_vote voter n v s.voting.voters here)

result_IsRanked :
    {F : Type 0} (rank : Name → ℕ) (s s' : State F)
    → s' ≡ s
    → IsRanked rank s.voting.voters
    → IsRanked rank s'.voting.voters
result_IsRanked rank s s' e h = rw e h

module _ (host : Host) where
  open host use {F}

  -- A vote again for the same proxy.
  update_votes_again-SameLinks :
      (depth : ℕ) (voter : Name) (v : VoterInfo F) (s s' : State F)
      → find voter s.voting.voters ≡ some v
      → update_votes host depth voter v.proxy v.producers false s ≡ ok s'
      → SameLinks s.voting.voters s'.voting.voters
  unfolding update_votes
  update_votes_again-SameLinks depth voter v s s' here h =
      let (t, e, h1) =
        >>=-eq-ok (recount host depth voter v.proxy v.producers false s.voting) _ h in
      let (w, found, linked, _, _, _, _) =
        recount-link host depth voter v.proxy v.producers false s.voting t e in
      same_result s s' t voter v w (ok_eq _ _ h1) here found linked

  restake-IsRanked :
      (rank : Name → ℕ) (voter : Name) (delta : ℤ) (row : Option (VoterInfo F))
      (t : Table (VoterInfo F))
      → IsRanked rank t
      → find voter t ≡ row
      → IsRanked rank (put voter (restake host delta row) t)
  unfolding restake new_voter
  restake-IsRanked rank voter delta none t h here =
      unlinked-IsRanked rank voter 0 false t _ h (λ n. put-link voter n (new_voter host delta) t)
        refl
  restake-IsRanked rank voter delta (some v) t h here =
      SameLinks-IsRanked rank t _
        (put-SameLinks voter (record v { staked = v.staked +ℤ delta }) t (rw here refl)) h

  update_voting_power-IsRanked :
      (depth : ℕ) (rank : Name → ℕ) (voter : Name) (change : Asset) (s s' : State F)
      → IsRanked rank s.voting.voters
      → update_voting_power host (counted_votes host depth) voter change s ≡ ok s'
      → IsRanked rank s'.voting.voters
  unfolding update_voting_power
  update_voting_power-IsRanked depth rank voter change s s' h returns =
      let v = restake host change.amount (find voter s.voting.voters) in
      let (_, h1) = >>-eq-ok (check (leb_ℤ (pos 0) v.staked) _) _ returns in
      let (_, h2) =
        >>-eq-ok (if voter == b1 then validate_b1_vesting host v.staked else ok tt) _ h1 in
      let s1 = set_voter host voter v s in
      let again = ltb 0 (length v.producers) || is_set v.proxy in
      let kept =
        restake-IsRanked rank voter change.amount (find voter s.voting.voters) s.voting.voters h
          refl in
      elim (Bool-cases again) [
        | inr e ↦
            result_IsRanked rank s1 s' (sym (ok_eq _ _ (sym (not_taken again _ _ _ e h2)))) kept
        | inl e ↦
            SameLinks-IsRanked rank s1.voting.voters s'.voting.voters
              (update_votes_again-SameLinks depth voter v s1 s'
                (find-put_same voter v s.voting.voters) (taken again _ _ _ e h2))
              kept
      ]

  Voting-IsRanked :
      (depth : ℕ) (rank : Name → ℕ) {s s' : State F}
      → Voting host depth s s'
      → IsRanked rank s.voting.voters
      → (rank' : Name → ℕ) × IsRanked rank' s'.voting.voters
  Voting-IsRanked depth rank {s} {s'} (voted voter proxy producers e) h =
      voteproducer-IsRanked host depth voter proxy producers rank s s' h e
  Voting-IsRanked depth rank {s} {s'} (registered proxy isproxy e) h =
      (rank, regproxy-IsRanked host depth proxy isproxy rank s s' h e)
  Voting-IsRanked depth rank {s} {s'} (restaked voter change e) h =
      (rank, update_voting_power-IsRanked depth rank voter change s s' h e)

  -- Over any history of votes, of proxies that register or resign, and of changes of stake, votes
  -- through proxies never lead in a circle, and no voter with a proxy is a proxy: when ranks of the
  -- accounts show this before, there are ranks that show it after. Each voter with a proxy stands
  -- above its proxy.
  pub Elections-IsRanked :
      (depth : ℕ) (rank : Name → ℕ) {s s' : State F}
      → Elections host depth s s'
      → IsRanked rank s.voting.voters
      → (rank' : Name → ℕ) × IsRanked rank' s'.voting.voters
  Elections-IsRanked depth rank begun h = (rank, h)
  Elections-IsRanked depth rank (next before step) h =
      let (rank1, h1) = Elections-IsRanked depth rank before h in
      Voting-IsRanked depth rank1 step h1
