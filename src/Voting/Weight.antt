-- ===== src/Voting/Weight.antt =====
-- The weight of a vote, and its way along the proxies, contracts/eosio.system/src/voting.cpp: `stake2vote`,
-- `propagate_weight_change`, `regproxy`.
use eosio_system.Base.{
  ℕ, zero, suc, ◌*◌, Bool, not, ◌||◌, Option, none, some, List, [], ◌∷◌, if◌then◌else◌, Result, ok,
  err, ◌>>=◌, ◌>>◌, check, require,
}
use eosio_system.Base.Int.{ℤ, pos, ◌-ℤ◌, quot}
use eosio_system.Host.{Host, Name, is_set, require_auth, now_sec, seconds_per_day}
use eosio_system.State.{State, VoterInfo, VoteTables}
use eosio_system.Table.{Table, find, put}
use eosio_system.Voting.Shares.{Tally, tally_share, begin_tally, end_tally}

abbrev pub set_voters : {F : Type 0} → Table (VoterInfo F) → VoteTables F → VoteTables F
set_voters voters t = record t { voters = voters }

-- `modify` of a row by its key.
unfoldable pub modify {ℓ} : {V : Type ℓ} → ℕ → (V → V) → Table V → Table V
modify k f t = elim (find k t) [ none ↦ t | some v ↦ put k (f v) t ]

module _ (host : Host) where
  open host use {F, of_int, fadd, fsub, fmul, fdiv, flt, fabs, pow}

  unfoldable pub stake2vote : ℤ → F
  stake2vote staked =
      let weeks = quot (pos (now_sec host) -ℤ pos 946684800) (seconds_per_day * 7) in
      fmul (of_int staked) (pow (of_int (pos 2)) (fdiv (of_int weeks) (of_int (pos 52))))

  unfoldable pub vote_weight : VoterInfo F → F
  vote_weight v =
      let own = stake2vote v.staked in if v.is_proxy then fadd own v.proxied_vote_weight else own

  -- The votes of each producer change by the same amount.
  unfoldable pub reweigh : F → List Name → Tally host → Result (Tally host)
  reweigh delta [] c = ok c
  reweigh delta (acnt ∷ producers) c = do
    p ← require (find acnt c.tables.producers) "producer not found"
    let t = record c.tables {
      producers = put acnt (record p { total_votes = fadd p.total_votes delta }) c.tables.producers;
      total_producer_vote_weight = fadd c.tables.total_producer_vote_weight delta;
    }
    reweigh delta producers
        (tally_share host acnt p.last_claim_time p.total_votes delta (record c { tables = t }))

  -- A change of weight goes on to the proxy, or to the producers. `next` propagates from the proxy.
  unfoldable pub pass_on :
      (Name → VoterInfo F → VoteTables F → Result (VoteTables F))
      → VoterInfo F
      → F
      → VoteTables F
      → Result (VoteTables F)
  unfolding reweigh
  pass_on next v delta t =
      if is_set v.proxy
      then (do
        p ← require (find v.proxy t.voters) "proxy not found"
        let p' = record p { proxied_vote_weight = fadd p.proxied_vote_weight delta }
        next v.proxy p' (set_voters (put v.proxy p' t.voters) t))
      else (do c ← reweigh delta v.producers (begin_tally host t); ok (end_tally host c))

  -- Small changes are not passed on.
  unfoldable pub propagate_step :
      (Name → VoterInfo F → VoteTables F → Result (VoteTables F))
      → Name
      → VoterInfo F
      → VoteTables F
      → Result (VoteTables F)
  unfolding pass_on vote_weight stake2vote modify
  propagate_step next voter v t = do
    check (not (is_set v.proxy) || not v.is_proxy)
        "account registered as a proxy is not allowed to use a proxy"
    let new_weight = vote_weight v
    let delta = fsub new_weight v.last_vote_weight
    t' ← (if flt (of_int (pos 1)) (fabs delta) then pass_on next v delta t else ok t)
    ok (set_voters (modify voter (λ w. record w { last_vote_weight = new_weight }) t'.voters) t')

  -- The calls nest at most `depth` deep: the chain aborts an action that nests deeper.
  unfoldable pub propagate_weight_change :
      ℕ → Name → VoterInfo F → VoteTables F → Result (VoteTables F)
  unfolding propagate_step
  propagate_weight_change zero voter v t = err "call depth exceeded"
  propagate_weight_change (suc depth) voter v t =
      propagate_step (λ p q u. propagate_weight_change depth p q u) voter v t

  -- A row that `regproxy` creates.
  unfoldable pub new_proxy : Bool → VoterInfo F
  new_proxy isproxy = record {
    proxy = 0;
    producers = [];
    staked = pos 0;
    last_vote_weight = of_int (pos 0);
    proxied_vote_weight = of_int (pos 0);
    is_proxy = isproxy;
    flags1 = 0;
  }

  unfoldable pub register_proxy :
      ℕ → Name → Bool → Option (VoterInfo F) → VoteTables F → Result (VoteTables F)
  unfolding propagate_weight_change new_proxy
  register_proxy depth proxy isproxy none t =
      ok (set_voters (put proxy (new_proxy isproxy) t.voters) t)
  register_proxy depth proxy isproxy (some v) t = do
    check (if isproxy then not v.is_proxy else v.is_proxy) "action has no effect"
    check (not isproxy || not (is_set v.proxy))
        "account that uses a proxy is not allowed to become a proxy"
    let v' = record v { is_proxy = isproxy }
    propagate_weight_change depth proxy v' (set_voters (put proxy v' t.voters) t)

  unfoldable pub regproxy : ℕ → Name → Bool → State F → Result (State F)
  unfolding register_proxy
  regproxy depth proxy isproxy s = do
    require_auth host proxy
    t ← register_proxy depth proxy isproxy (find proxy s.voting.voters) s.voting
    ok (record s { voting = t })
