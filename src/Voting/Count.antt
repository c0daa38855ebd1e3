-- ===== src/Voting/Count.antt =====
-- Votes for producers or for a proxy, contracts/eosio.system/src/voting.cpp: `update_votes` and
-- `voteproducer`.
use eosio_system.Base.{
  ℕ, ◌*◌, Bool, true, false, not, ◌&&◌, ◌||◌, Option, none, some, List, [], ◌∷◌, ltb, leb, ◌==◌,
  if◌then◌else◌, Result, ok, ◌>>=◌, ◌>>◌, check, require, length,
}
use eosio_system.Base.Int.{pos, ◌+ℤ◌, ltb_ℤ, leb_ℤ}
use eosio_system.Host.{Host, Name, is_set, require_auth}
use eosio_system.State.{State, VoterInfo, ProducerInfo, VoteTables}
use eosio_system.Table.{find, put}
use eosio_system.Rex.Account.{update_rex_stake, check_voting_requirement}
use eosio_system.Voting.Shares.{Tally, tally_share, begin_tally, end_tally, fzero}
use eosio_system.Voting.Weight.{set_voters, modify, vote_weight, propagate_weight_change}

-- `min_activated_stake`
abbrev pub min_activated_stake : ℕ
min_activated_stake = 150000000 * 10000

-- Each name is larger than the one before.
unfoldable pub is_sorted : List Name → Bool
is_sorted [] = true
is_sorted (p ∷ []) = true
is_sorted (p ∷ q ∷ rest) = ltb p q && is_sorted (q ∷ rest)

-- The votes that are consistent in themselves.
unfoldable pub validate_votes : Name → Name → List Name → Result (Unit {0})
unfolding is_sorted
validate_votes voter proxy producers =
    if is_set proxy
    then (do
      check (length producers == 0) "cannot vote for producers and proxy at same time"
      check (not (voter == proxy)) "cannot proxy to self")
    else (do
      check (leb (length producers) 30) "attempt to vote for too many producers"
      check (is_sorted producers) "producer votes must be unique and sorted")

module _ (host : Host) where
  open host use {F, now, of_int, fadd, fsub, flt, fle}

  -- The threshold of activation is bypassed; the stake is counted only at the time 0.
  unfoldable pub activate : VoterInfo F → VoteTables F → VoteTables F
  activate v t =
      let t1 =
        if t.thresh_activated_stake_time == 0
        then record t { thresh_activated_stake_time = now }
        else t in
      if t1.thresh_activated_stake_time == 0 && fle v.last_vote_weight (fzero host)
      then (let total = t1.total_activated_stake +ℤ v.staked in
          record t1 {
            total_activated_stake = total;
            thresh_activated_stake_time =
                if leb_ℤ (pos min_activated_stake) total
                then now
                else t1.thresh_activated_stake_time;
          })
      else t1

  -- `producer_deltas`, in the order of the names: the change, and whether the vote is new.
  abbrev pub Deltas : Type 0
  Deltas = List (Name × F × Bool)

  unfoldable pub put_delta : Name → (F → F) → Bool → Deltas → Deltas
  put_delta p change new [] = (p, change (fzero host), new) ∷ []
  put_delta p change new ((q, d, b) ∷ rest) =
      let later = put_delta p change new rest in
      if p == q
      then (q, change d, new) ∷ rest
      else if ltb p q
      then (p, change (fzero host), new) ∷ (q, d, b) ∷ rest
      else (q, d, b) ∷ later

  unfoldable pub put_deltas : List Name → (F → F) → Bool → Deltas → Deltas
  unfolding put_delta
  put_deltas [] change new ds = ds
  put_deltas (p ∷ rest) change new ds = put_deltas rest change new (put_delta p change new ds)

  -- The votes of one producer, which do not fall below 0. The messages leave out its name.
  unfoldable pub count_producer :
      Bool → Name → F → Bool → Option (ProducerInfo F) → Tally host → Result (Tally host)
  count_producer voting producer delta new none c = do
    check (not new) "producer is not registered"
    ok c
  count_producer voting producer delta new (some p) c = do
    check (not (voting && not p.is_active && new)) "producer is not currently registered"
    let sum = fadd p.total_votes delta
    let p' = record p { total_votes = if flt sum (fzero host) then fzero host else sum }
    let t = record c.tables {
      producers = put producer p' c.tables.producers;
      total_producer_vote_weight = fadd c.tables.total_producer_vote_weight delta;
    }
    ok (tally_share host producer p.last_claim_time p.total_votes delta (record c { tables = t }))

  unfoldable pub count_producers : Bool → Deltas → Tally host → Result (Tally host)
  unfolding count_producer
  count_producers voting [] c = ok c
  count_producers voting ((p, d, new) ∷ rest) c = do
    c' ← count_producer voting p d new (find p c.tables.producers) c
    count_producers voting rest c'

  -- The old votes are taken back.
  unfoldable pub withdraw_votes : ℕ → VoterInfo F → VoteTables F → Result (Deltas × VoteTables F)
  unfolding put_deltas
  withdraw_votes depth v t =
      if flt (fzero host) v.last_vote_weight
      then if is_set v.proxy
        then (do
          p ← require (find v.proxy t.voters) "old proxy not found"
          let p' = record p { proxied_vote_weight = fsub p.proxied_vote_weight v.last_vote_weight }
          t' ←
              propagate_weight_change host depth v.proxy p' (set_voters (put v.proxy p' t.voters) t)
          ok ([], t'))
        else ok (put_deltas v.producers (λ d. fsub d v.last_vote_weight) false [], t)
      else ok ([], t)

  -- The new votes are given.
  unfoldable pub give_votes :
      ℕ → Name → List Name → Bool → F → Deltas × VoteTables F → Result (Deltas × VoteTables F)
  unfolding put_deltas
  give_votes depth proxy producers voting weight (ds, t) =
      if is_set proxy
      then (do
        p ← require (find proxy t.voters) "invalid proxy specified"
        check (not voting || p.is_proxy) "proxy not found"
        let p' = record p { proxied_vote_weight = fadd p.proxied_vote_weight weight }
        t' ←
            (if fle (fzero host) weight
              then propagate_weight_change host depth proxy p'
                  (set_voters (put proxy p' t.voters) t)
              else ok t)
        ok (ds, t'))
      else ok (
        if fle (fzero host) weight then put_deltas producers (λ d. fadd d weight) true ds else ds,
        t,
      )

  unfoldable pub recount : ℕ → Name → Name → List Name → Bool → VoteTables F → Result (VoteTables F)
  unfolding validate_votes activate withdraw_votes give_votes count_producers vote_weight modify
  recount depth voter proxy producers voting t = do
    validate_votes voter proxy producers
    v ← require (find voter t.voters) "user must stake before they can vote"
    check (not (is_set proxy) || not v.is_proxy)
        "account registered as a proxy is not allowed to use a proxy"
    let weight = vote_weight host v
    old ← withdraw_votes depth v (activate v t)
    both ← give_votes depth proxy producers voting weight old
    c ← count_producers voting both.0 (begin_tally host both.1)
    let t' = end_tally host c
    ok (
        set_voters
          (modify voter
            (λ w. record w { last_vote_weight = weight; producers = producers; proxy = proxy })
            t'.voters)
          t')

  unfoldable pub update_votes : ℕ → Name → Name → List Name → Bool → State F → Result (State F)
  unfolding recount
  update_votes depth voter proxy producers voting s = do
    t ← recount depth voter proxy producers voting s.voting
    ok (record s { voting = t })

  -- Who holds REX votes for a proxy or for 21 producers.
  unfoldable pub check_rex_vote : Name → State F → Result (Unit {0})
  check_rex_vote voter s =
      if elim (find voter s.rex.rexbalance) [
        | none ↦ false
        | some rb ↦ ltb_ℤ (pos 0) rb.rex_balance.amount
      ]
      then check_voting_requirement host voter
          "voter holding REX tokens must vote for at least 21 producers or for a proxy" s
      else ok tt

  unfoldable pub voteproducer : ℕ → Name → Name → List Name → State F → Result (State F)
  unfolding update_votes check_rex_vote
  voteproducer depth voter proxy producers s = do
    require_auth host voter
    s1 ← update_rex_stake voter s
    s2 ← update_votes depth voter proxy producers true s1
    check_rex_vote voter s2
    ok s2
