-- ===== src/Voting/Links.antt =====
-- Who votes through whom, contracts/eosio.system/src/voting.cpp: the links from voters to proxies, and that a
-- change of weight leaves them alone.
use eosio_system.Base.{
  ok_eq, required, taken, not_taken, ℕ, zero, suc, ◌≡◌, ◌∙◌, refl, sym, ap, inl, inr, Bool, not,
  ◌||◌, Option, none, some, List, [], ◌∷◌, arith, ◌==◌, if◌then◌else◌, ==_iff, Bool-cases,
  Option-cases, Result, ok, check, require, >>=-eq-ok, >>-eq-ok,
}
use eosio_system.Base.Int.{pos}
use eosio_system.Host.{Host, Name, is_set}
use eosio_system.State.{VoterInfo, VoteTables}
use eosio_system.Table.{Table, find, put, find-put}
use eosio_system.Voting.Shares.{
  Tally, tally_share, begin_tally, end_tally, update_total_votepay_share,
}
use eosio_system.Voting.Weight.{
  set_voters, modify, vote_weight, reweigh, pass_on, propagate_step, propagate_weight_change,
}

module _ {F : Type 0} where
  -- The proxy of a voter, and whether it is a proxy itself.
  abbrev pub link_of : Option (VoterInfo F) → Option (Name × Bool)
  link_of none = none
  link_of (some v) = some (v.proxy, v.is_proxy)

  abbrev pub link : Table (VoterInfo F) → Name → Option (Name × Bool)
  link t n = link_of (find n t)

  abbrev pub SameLinks : Table (VoterInfo F) → Table (VoterInfo F) → Type 0
  SameLinks t t' = (n : Name) → link t' n ≡ link t n

  pub SameLinks-trans :
      (t u w : Table (VoterInfo F)) → SameLinks t u → SameLinks u w → SameLinks t w
  SameLinks-trans t u w h k n = k n ∙ h n

  pub put-link :
      (k n : Name) (v : VoterInfo F) (t : Table (VoterInfo F))
      → link (put k v t) n ≡ (if k == n then some (v.proxy, v.is_proxy) else link t n)
  put-link k n v t = elim (Bool-cases (k == n)) [
    | inl e ↦ rw (find-put k n v t, e) refl
    | inr e ↦ rw (find-put k n v t, e) refl
  ]

  -- A row that is stored with the link that it has.
  pub put-SameLinks :
      (k : Name) (v : VoterInfo F) (t : Table (VoterInfo F))
      → link t k ≡ some (v.proxy, v.is_proxy)
      → SameLinks t (put k v t)
  put-SameLinks k v t h n = elim (Bool-cases (k == n)) [
    | inl e ↦ rw (put-link k n v t, e) (sym (ap (λ x. link t x) (sym ((==_iff k n).0 e)) ∙ h))
    | inr e ↦ rw (put-link k n v t, e) refl
  ]

  pub modify-SameLinks :
      (k : Name) (f : VoterInfo F → VoterInfo F) (t : Table (VoterInfo F))
      → ((v : VoterInfo F) → (f v).proxy ≡ v.proxy)
      → ((v : VoterInfo F) → (f v).is_proxy ≡ v.is_proxy)
      → SameLinks t (modify k f t)
  unfolding modify
  modify-SameLinks k f t same_proxy same_kind n = elim (Option-cases (find k t)) [
    | inl e ↦ rw (modify, e) refl
    | inr (v, e) ↦
        rw (modify, e) (put-SameLinks k (f v) t (rw (e, same_proxy v, same_kind v) refl) n)
  ]

module _ (host : Host) where
  open host use {F}

  pub tally_share-voters :
      (producer : Name) (last : ℕ) (init delta : F) (c : Tally host)
      → (tally_share host producer last init delta c).tables.voters ≡ c.tables.voters
  unfolding tally_share
  tally_share-voters producer last init delta c = ground arith

  reweigh-voters :
      (delta : F) (producers : List Name) (c c' : Tally host)
      → reweigh host delta producers c ≡ ok c'
      → c'.tables.voters ≡ c.tables.voters
  unfolding reweigh
  reweigh-voters delta [] c c' h = rw (ok_eq _ _ h) refl
  reweigh-voters delta (acnt ∷ rest) c c' h =
      let (p, e1, h1) =
        >>=-eq-ok (require (find acnt c.tables.producers) "producer not found") _ h in
      let t = record c.tables {
        producers =
            put acnt (record p { total_votes = host.fadd p.total_votes delta }) c.tables.producers;
        total_producer_vote_weight = host.fadd c.tables.total_producer_vote_weight delta;
      } in
      let c1 = record c { tables = t } in
      reweigh-voters delta rest (tally_share host acnt p.last_claim_time p.total_votes delta c1) c'
        h1
      ∙ tally_share-voters acnt p.last_claim_time p.total_votes delta c1

  pub end_tally-voters : (c : Tally host) → (end_tally host c).voters ≡ c.tables.voters
  unfolding update_total_votepay_share
  end_tally-voters c = refl

  -- Passing a change on keeps the links when the propagation from the proxy does.
  pass_on-SameLinks :
      (next : Name → VoterInfo F → VoteTables F → Result (VoteTables F))
      → ((n : Name) (v : VoterInfo F) (u u' : VoteTables F)
          → next n v u ≡ ok u'
          → SameLinks u.voters u'.voters)
      → (v : VoterInfo F) (delta : F) (t t' : VoteTables F) → pass_on host next v delta t ≡ ok t'
      → SameLinks t.voters t'.voters
  unfolding pass_on
  pass_on-SameLinks next rest v delta t t' h = elim (Bool-cases (is_set v.proxy)) [
    | inl e ↦
        let h0 = taken (is_set v.proxy) _ _ _ e h in
        let (p, e1, h1) = >>=-eq-ok (require (find v.proxy t.voters) "proxy not found") _ h0 in
        let p' = record p { proxied_vote_weight = host.fadd p.proxied_vote_weight delta } in
        let stored =
          put-SameLinks v.proxy p' t.voters (rw (required (find v.proxy t.voters) p _ e1) refl) in
        SameLinks-trans t.voters (put v.proxy p' t.voters) t'.voters stored
          (rest v.proxy p' (set_voters (put v.proxy p' t.voters) t) t' h1)
    | inr e ↦
        let h0 = not_taken (is_set v.proxy) _ _ _ e h in
        let (c, e1, h1) = >>=-eq-ok (reweigh host delta v.producers (begin_tally host t)) _ h0 in
        let same = reweigh-voters delta v.producers (begin_tally host t) c e1 in
        rw (ok_eq _ _ h1) (λ n. ap (λ x. link x n) (end_tally-voters c ∙ same))
  ]

  propagate_step-SameLinks :
      (next : Name → VoterInfo F → VoteTables F → Result (VoteTables F))
      → ((n : Name) (v : VoterInfo F) (u u' : VoteTables F)
          → next n v u ≡ ok u'
          → SameLinks u.voters u'.voters)
      → (voter : Name) (v : VoterInfo F) (t t' : VoteTables F)
      → propagate_step host next voter v t ≡ ok t'
      → SameLinks t.voters t'.voters
  unfolding propagate_step
  propagate_step-SameLinks next rest voter v t t' h =
      let weight = vote_weight host v in
      let delta = host.fsub weight v.last_vote_weight in
      let large = host.flt (host.of_int (pos 1)) (host.fabs delta) in
      let f : VoterInfo F → VoterInfo F = λ w. record w { last_vote_weight = weight } in
      let (_, h1) = >>-eq-ok (check (not (is_set v.proxy) || not v.is_proxy) _) _ h in
      let (t1, e1, h2) = >>=-eq-ok (if large then pass_on host next v delta t else ok t) _ h1 in
      let passed : SameLinks t.voters t1.voters = elim (Bool-cases large) [
        | inl e ↦ pass_on-SameLinks next rest v delta t t1 (taken large _ _ _ e e1)
        | inr e ↦ rw (ok_eq _ _ (not_taken large _ _ _ e e1)) (λ n. refl)
      ] in
      rw (ok_eq _ _ h2) (
        SameLinks-trans t.voters t1.voters (modify voter f t1.voters) passed
          (modify-SameLinks voter f t1.voters (λ w. refl) (λ w. refl)))

  -- A change of weight is passed on without a change of who votes through whom.
  pub propagate_weight_change-SameLinks :
      (depth : ℕ) (voter : Name) (v : VoterInfo F) (t t' : VoteTables F)
      → propagate_weight_change host depth voter v t ≡ ok t'
      → SameLinks t.voters t'.voters
  unfolding propagate_weight_change
  propagate_weight_change-SameLinks zero voter v t t' h = cc
  propagate_weight_change-SameLinks (suc depth) voter v t t' h =
      propagate_step-SameLinks (λ p q u. propagate_weight_change host depth p q u)
        (λ n w u u' e. propagate_weight_change-SameLinks depth n w u u' e) voter v t t' h
