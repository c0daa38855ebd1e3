-- ===== src/Voting/Ballot.antt =====
-- What a vote must satisfy, and what is stored of it, contracts/eosio.system/src/voting.cpp: `update_votes`
-- and `voteproducer`.
use eosio_system.Base.{
  leb→le, ltb→lt, ==_iff, ok_eq, taken, not_taken, ℕ, ◌≤◌, ◌<◌, ◌≡◌, ◌≢◌, refl, sym, inl, inr, Bool,
  true, false, not, ◌&&◌, ◌||◌, Option, none, some, List, [], ◌∷◌, arith, ltb, leb, ◌==◌,
  Bool-cases, ok, check, >>=-eq-ok, >>-eq-ok, check-eq-ok, length, All,
}
use eosio_system.Base.Int.{pos, ltb_ℤ}
use eosio_system.Host.{Host, Name, is_set, require_auth}
use eosio_system.State.{State, VoterInfo}
use eosio_system.Table.{find}
use eosio_system.Votes.{Votes}
use eosio_system.Rex.Account.{update_rex_stake, check_voting_requirement}
use eosio_system.Voting.Count.{
  is_sorted, validate_votes, recount, update_votes, check_rex_vote, voteproducer,
}
use eosio_system.Voting.Relink.{recount-link}

-- Each name is smaller than all names after it, so no name occurs twice.
abbrev pub IsIncreasing : List Name → Type 0
IsIncreasing [] = Unit
IsIncreasing (p ∷ rest) = All (λ q. p < q) rest × IsIncreasing rest

All-below : (p q : Name) (rest : List Name) → p < q → All (λ r. q < r) rest → All (λ r. p < r) rest
All-below p q [] h below = tt
All-below p q (r ∷ rest) h below = (omega (arith, h, below.0), All-below p q rest h below.1)

both : (a b : Bool) → a && b ≡ true → (a ≡ true) × (b ≡ true)
both true b h = (refl, h)
both false b h = cc

is_sorted-IsIncreasing : (l : List Name) → is_sorted l ≡ true → IsIncreasing l
unfolding is_sorted
is_sorted-IsIncreasing [] h = tt
is_sorted-IsIncreasing (p ∷ []) h = (tt, tt)
is_sorted-IsIncreasing (p ∷ q ∷ rest) h =
    let (less, sorted_rest) = both (ltb p q) (is_sorted (q ∷ rest)) h in
    let (below, rest_increasing) = is_sorted-IsIncreasing (q ∷ rest) sorted_rest in
    ((ltb→lt p q less, All-below p q rest (ltb→lt p q less) below), (below, rest_increasing))

-- A ballot names a proxy other than the voter and no producer, or up to 30 producers in order, each once.
pub data IsBallot (voter proxy : Name) (producers : List Name) : Type 0 where
  for_proxy :
      is_set proxy ≡ true → voter ≢ proxy → length producers ≡ 0 → IsBallot voter proxy producers
  for_producers :
      is_set proxy ≡ false
      → length producers ≤ 30
      → IsIncreasing producers
      → IsBallot voter proxy producers

validate_votes-IsBallot :
    (voter proxy : Name) (producers : List Name)
    → validate_votes voter proxy producers ≡ ok tt
    → IsBallot voter proxy producers
unfolding validate_votes
validate_votes-IsBallot voter proxy producers h = elim (Bool-cases (is_set proxy)) [
  | inl e ↦
      let h0 = taken (is_set proxy) _ _ _ e h in
      let (none_named, h1) = >>-eq-ok (check (length producers == 0) _) _ h0 in
      let apart = check-eq-ok (not (voter == proxy)) _ h1 in
      for_proxy e (λ same. ground (arith, apart, same))
        ((==_iff (length producers) 0).0 (check-eq-ok (length producers == 0) _ none_named))
  | inr e ↦
      let h0 = not_taken (is_set proxy) _ _ _ e h in
      let (few, h1) = >>-eq-ok (check (leb (length producers) 30) _) _ h0 in
      for_producers e (leb→le (length producers) 30 (check-eq-ok (leb (length producers) 30) _ few))
        (is_sorted-IsIncreasing producers (check-eq-ok (is_sorted producers) _ h1))
]

-- The row of the voter holds the ballot.
abbrev pub IsCast : {F : Type 0} → Name → Name → List Name → State F → Type 0
IsCast {F} voter proxy producers s =
    (w : VoterInfo F) × (find voter s.voting.voters ≡ some w)
    × (w.proxy ≡ proxy)
    × (w.producers ≡ producers)

voting_row :
    {F : Type 0} (o : Option (VoterInfo F)) (w : VoterInfo F)
    → o ≡ some w
    → elim o [ none ↦ false | some v ↦ is_set v.proxy || leb 21 (length v.producers) ] ≡ true
    → is_set w.proxy || leb 21 (length w.producers) ≡ true
voting_row none w e h = cc
voting_row (some v) w e h = cc

module _ (host : Host) where
  open host use {F}

  -- Counting votes keeps the promise that staking relies on: an `update_votes` that does not abort
  -- leaves the tables of REX, staking, memory and auctions alone and sends nothing.
  pub update_votes_frame :
      (depth : ℕ) (voter proxy : Name) (producers : List Name) (voting : Bool) (s s' : State F)
      → update_votes host depth voter proxy producers voting s ≡ ok s'
      → (s'.rex ≡ s.rex)
        × (s'.stake ≡ s.stake)
        × (s'.ram ≡ s.ram)
        × (s'.auctions ≡ s.auctions)
        × (s'.sent ≡ s.sent)
  unfolding update_votes
  update_votes_frame depth voter proxy producers voting s s' h =
      let (t, e, h1) = >>=-eq-ok (recount host depth voter proxy producers voting s.voting) _ h in
      rw (ok_eq _ _ h1) (refl, refl, refl, refl, refl)

  -- The code of `update_votes` behind the interface that staking uses.
  abbrev pub counted_votes : ℕ → Votes host
  counted_votes depth = record {
    update_votes =
        λ voter proxy producers voting s. update_votes host depth voter proxy producers voting s;
    update_votes_frame = update_votes_frame depth;
  }

  update_votes-IsBallot :
      (depth : ℕ) (voter proxy : Name) (producers : List Name) (voting : Bool) (s s' : State F)
      → update_votes host depth voter proxy producers voting s ≡ ok s'
      → IsBallot voter proxy producers × IsCast voter proxy producers s'
  unfolding update_votes
  update_votes-IsBallot depth voter proxy producers voting s s' h =
      let (t, e, h1) = >>=-eq-ok (recount host depth voter proxy producers voting s.voting) _ h in
      let (_, _, _, _, valid, _, cast) =
        recount-link host depth voter proxy producers voting s.voting t e in
      (validate_votes-IsBallot voter proxy producers valid, rw (ok_eq _ _ h1) cast)

  -- Whether the voter has REX.
  abbrev pub holds_rex : Name → State F → Bool
  holds_rex voter s = elim (find voter s.rex.rexbalance) [
    | none ↦ false
    | some rb ↦ ltb_ℤ (pos 0) rb.rex_balance.amount
  ]

  check_rex_vote-IsCast :
      (voter proxy : Name) (producers : List Name) (s : State F)
      → check_rex_vote host voter s ≡ ok tt
      → IsCast voter proxy producers s
      → not (holds_rex voter s) || (is_set proxy || leb 21 (length producers)) ≡ true
  unfolding check_rex_vote check_voting_requirement
  check_rex_vote-IsCast voter proxy producers s h (w, here, same_proxy, same_producers) =
      elim (Bool-cases (holds_rex voter s)) [
        | inr e ↦ rw e refl
        | inl e ↦
            let h0 = taken (holds_rex voter s) _ _ _ e h in
            let checked = check-eq-ok _ _ h0 in
            rw (e, sym same_proxy, sym same_producers)
              (voting_row (find voter s.voting.voters) w here checked)
      ]

  same_state :
      (s s' : State F) (voter proxy : Name) (producers : List Name)
      → s' ≡ s
      → IsBallot voter proxy producers
      → IsCast voter proxy producers s
      → not (holds_rex voter s) || (is_set proxy || leb 21 (length producers)) ≡ true
      → IsBallot voter proxy producers
        × IsCast voter proxy producers s'
        × (not (holds_rex voter s') || (is_set proxy || leb 21 (length producers)) ≡ true)
  same_state s s' voter proxy producers e ballot cast enough = rw e (ballot, cast, enough)

  -- A `voteproducer` that does not abort was for a proxy other than the voter and no producer, or for
  -- at most 30 producers in increasing order, each once. It stores this vote in the row of the voter,
  -- and a voter who holds REX has a proxy or at least 21 producers.
  pub voteproducer-IsBallot :
      (depth : ℕ) (voter proxy : Name) (producers : List Name) (s s' : State F)
      → voteproducer host depth voter proxy producers s ≡ ok s'
      → IsBallot voter proxy producers
        × IsCast voter proxy producers s'
        × (not (holds_rex voter s') || (is_set proxy || leb 21 (length producers)) ≡ true)
  unfolding voteproducer
  voteproducer-IsBallot depth voter proxy producers s s' h =
      let (_, h1) = >>-eq-ok (require_auth host voter) _ h in
      let (s1, e2, h2) = >>=-eq-ok (update_rex_stake voter s) _ h1 in
      let (s2, e3, h3) = >>=-eq-ok (update_votes host depth voter proxy producers true s1) _ h2 in
      let (checked, h4) = >>-eq-ok (check_rex_vote host voter s2) _ h3 in
      let (ballot, cast) = update_votes-IsBallot depth voter proxy producers true s1 s2 e3 in
      same_state s2 s' voter proxy producers (ok_eq _ _ h4) ballot cast
        (check_rex_vote-IsCast voter proxy producers s2 checked cast)
