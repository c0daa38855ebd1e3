-- ===== src/Voting/Relink.antt =====
-- What a vote does to the links from voters to proxies, contracts/eosio.system/src/voting.cpp: `update_votes`.
use eosio_system.Base.{
  ok_eq, required, taken, not_taken, ℕ, ◌≡◌, ◌∙◌, refl, sym, ap, inl, inr, Bool, true, false, not,
  ◌&&◌, ◌||◌, Option, none, some, List, [], ◌∷◌, arith, ◌==◌, if◌then◌else◌, Bool-cases, ok, check,
  require, >>=-eq-ok, >>-eq-ok, check-eq-ok,
}
use eosio_system.Base.Int.{pos}
use eosio_system.Host.{Host, Name, is_set}
use eosio_system.State.{VoterInfo, ProducerInfo, VoteTables}
use eosio_system.Table.{find-put_same, Table, find, put}
use eosio_system.Voting.Shares.{Tally, begin_tally, end_tally}
use eosio_system.Voting.Weight.{set_voters, modify, vote_weight, propagate_weight_change}
use eosio_system.Voting.Count.{
  validate_votes, activate, count_producer, count_producers, withdraw_votes, give_votes, recount,
}
use eosio_system.Voting.Links.{
  link, link_of, SameLinks, SameLinks-trans, put-link, put-SameLinks, tally_share-voters,
  end_tally-voters, propagate_weight_change-SameLinks,
}

modify-link :
    {F : Type 0} (k p : Name) (b : Bool) (f : VoterInfo F → VoterInfo F) (t : Table (VoterInfo F))
    (v : VoterInfo F)
    → find k t ≡ some v
    → (f v).proxy ≡ p
    → (f v).is_proxy ≡ b
    → (n : Name) → link (modify k f t) n ≡ (if k == n then some (p, b) else link t n)
unfolding modify
modify-link k p b f t v e ep eb n = rw (modify, e, put-link k n (f v) t, ep, eb) refl

modified :
    {F : Type 0} (k : Name) (f : VoterInfo F → VoterInfo F) (t : Table (VoterInfo F))
    (v : VoterInfo F)
    → find k t ≡ some v
    → modify k f t ≡ put k (f v) t
unfolding modify
modified k f t v e = rw (modify, e) refl

modify_same :
    {F : Type 0} (k : Name) (f : VoterInfo F → VoterInfo F) (t : Table (VoterInfo F))
    (v : VoterInfo F)
    → find k t ≡ some v
    → find k (modify k f t) ≡ some (f v)
unfolding modify
modify_same k f t v e = ap (λ x. find k x) (modified k f t v e) ∙ find-put_same k (f v) t

row_of_result :
    {F : Type 0} (k : Name) (v : VoterInfo F) (t' t : VoteTables F)
    → t' ≡ t
    → find k t.voters ≡ some v
    → find k t'.voters ≡ some v
row_of_result k v t' t e h = rw e h

-- A row is there if its link is.
linked :
    {F : Type 0} (o : Option (VoterInfo F)) (p : Name) (b : Bool)
    → link_of o ≡ some (p, b)
    → (v : VoterInfo F) × (o ≡ some v) × (v.is_proxy ≡ b)
linked none p b h = cc
linked (some v) p b h = (v, refl, cc)

proxy_voted : (a b c : Bool) → a && b ≡ true → not b || c ≡ true → c ≡ true
proxy_voted true true c h k = k
proxy_voted true false c h k = cc
proxy_voted false b c h k = cc

module _ (host : Host) where
  open host use {F}

  activate-voters : (v : VoterInfo F) (t : VoteTables F) → (activate host v t).voters ≡ t.voters
  unfolding activate
  activate-voters v t = ground arith

  count_producer-voters :
      (voting : Bool) (producer : Name) (delta : F) (new : Bool) (row : Option (ProducerInfo F))
      (c c' : Tally host)
      → count_producer host voting producer delta new row c ≡ ok c'
      → c'.tables.voters ≡ c.tables.voters
  unfolding count_producer
  count_producer-voters voting producer delta new none c c' h =
      let (_, h1) = >>-eq-ok (check (not new) _) _ h in rw (ok_eq _ _ h1) refl
  count_producer-voters voting producer delta new (some p) c c' h =
      let (_, h1) = >>-eq-ok (check (not (voting && not p.is_active && new)) _) _ h in
      let sum = host.fadd p.total_votes delta in
      let zero_votes = host.of_int (pos 0) in
      let p' = record p { total_votes = if host.flt sum zero_votes then zero_votes else sum } in
      let t = record c.tables {
        producers = put producer p' c.tables.producers;
        total_producer_vote_weight = host.fadd c.tables.total_producer_vote_weight delta;
      } in
      let c1 = record c { tables = t } in
      ap (λ (x : Tally host). x.tables.voters) (ok_eq _ _ h1)
      ∙ tally_share-voters host producer p.last_claim_time p.total_votes delta c1

  count_producers-voters :
      (voting : Bool) (ds : List (Name × F × Bool)) (c c' : Tally host)
      → count_producers host voting ds c ≡ ok c'
      → c'.tables.voters ≡ c.tables.voters
  unfolding count_producers
  count_producers-voters voting [] c c' h = rw (ok_eq _ _ h) refl
  count_producers-voters voting ((p, d, new) ∷ rest) c c' h =
      let (c1, e1, h1) =
        >>=-eq-ok (count_producer host voting p d new (find p c.tables.producers) c) _ h in
      count_producers-voters voting rest c1 c' h1
      ∙ count_producer-voters voting p d new (find p c.tables.producers) c c1 e1

  withdraw_votes-SameLinks :
      (depth : ℕ) (v : VoterInfo F) (t : VoteTables F) (out : List (Name × F × Bool) × VoteTables F)
      → withdraw_votes host depth v t ≡ ok out
      → SameLinks t.voters (out.1).voters
  unfolding withdraw_votes
  withdraw_votes-SameLinks depth v t out h =
      let counted = host.flt (host.of_int (pos 0)) v.last_vote_weight in
      elim (Bool-cases counted) [
        | inr e ↦ rw (ok_eq _ _ (not_taken counted _ _ _ e h)) (λ n. refl)
        | inl e ↦
            let h0 = taken counted _ _ _ e h in
            elim (Bool-cases (is_set v.proxy)) [
              | inr e' ↦ rw (ok_eq _ _ (not_taken (is_set v.proxy) _ _ _ e' h0)) (λ n. refl)
              | inl e' ↦
                  let h1 = taken (is_set v.proxy) _ _ _ e' h0 in
                  let (p, e2, h2) =
                    >>=-eq-ok (require (find v.proxy t.voters) "old proxy not found") _ h1 in
                  let p' = record p {
                    proxied_vote_weight = host.fsub p.proxied_vote_weight v.last_vote_weight;
                  } in
                  let t1 = set_voters (put v.proxy p' t.voters) t in
                  let (t', e3, h3) =
                    >>=-eq-ok (propagate_weight_change host depth v.proxy p' t1) _ h2 in
                  let stored =
                    put-SameLinks v.proxy p' t.voters
                      (rw (required (find v.proxy t.voters) p _ e2) refl) in
                  rw (ok_eq _ _ h3) (
                    SameLinks-trans t.voters t1.voters t'.voters stored
                      (propagate_weight_change-SameLinks host depth v.proxy p' t1 t' e3))
            ]
      ]

  give_votes-SameLinks :
      (depth : ℕ) (proxy : Name) (producers : List Name) (voting : Bool) (weight : F)
      (ds : List (Name × F × Bool)) (t : VoteTables F) (out : List (Name × F × Bool) × VoteTables F)
      → give_votes host depth proxy producers voting weight (ds, t) ≡ ok out
      → SameLinks t.voters (out.1).voters
        × (is_set proxy && voting ≡ true → (q : Name) × (link t.voters proxy ≡ some (q, true)))
  unfolding give_votes
  give_votes-SameLinks depth proxy producers voting weight ds t out h =
      elim (Bool-cases (is_set proxy)) [
        | inr e ↦ (rw (ok_eq _ _ (not_taken (is_set proxy) _ _ _ e h)) (λ n. refl), λ e'. cc)
        | inl e ↦
            let h0 = taken (is_set proxy) _ _ _ e h in
            let (p, e1, h1) =
              >>=-eq-ok (require (find proxy t.voters) "invalid proxy specified") _ h0 in
            let (ch, h2) = >>-eq-ok (check (not voting || p.is_proxy) _) _ h1 in
            let found = required (find proxy t.voters) p _ e1 in
            let p' = record p { proxied_vote_weight = host.fadd p.proxied_vote_weight weight } in
            let t1 = set_voters (put proxy p' t.voters) t in
            let positive = host.fle (host.of_int (pos 0)) weight in
            let (t', e3, h3) =
              >>=-eq-ok (if positive then propagate_weight_change host depth proxy p' t1 else ok t)
                _ h2 in
            let stored = put-SameLinks proxy p' t.voters (rw found refl) in
            let passed : SameLinks t.voters t'.voters = elim (Bool-cases positive) [
              | inl e' ↦ SameLinks-trans t.voters t1.voters t'.voters stored (
                  propagate_weight_change-SameLinks host depth proxy p' t1 t'
                    (taken positive _ _ _ e' e3))
              | inr e' ↦ rw (ok_eq _ _ (not_taken positive _ _ _ e' e3)) (λ n. refl)
            ] in
            (
              rw (ok_eq _ _ h3) passed,
              λ e'. (
                p.proxy,
                rw
                    (
                      found,
                      proxy_voted (is_set proxy) voting p.is_proxy e'
                          (check-eq-ok (not voting || p.is_proxy) _ ch),
                    )
                    refl,
              ),
            )
      ]

  -- A vote links the voter to the proxy of the vote, or to none, and changes no other link.
  pub recount-link :
      (depth : ℕ) (voter proxy : Name) (producers : List Name) (voting : Bool) (t t' : VoteTables F)
      → recount host depth voter proxy producers voting t ≡ ok t'
      → (v : VoterInfo F) × (find voter t.voters ≡ some v)
        × ((n : Name)
            → link t'.voters n ≡ (if voter == n then some (proxy, v.is_proxy) else link t.voters n))
        × (not (is_set proxy) || not v.is_proxy ≡ true)
        × (validate_votes voter proxy producers ≡ ok tt)
        × (is_set proxy && voting ≡ true → (q : Name) × (link t.voters proxy ≡ some (q, true)))
        × ((w : VoterInfo F) × (find voter t'.voters ≡ some w)
            × (w.proxy ≡ proxy)
            × (w.producers ≡ producers))
  unfolding recount
  recount-link depth voter proxy producers voting t t' h =
      let (valid, h1) = >>-eq-ok (validate_votes voter proxy producers) _ h in
      let (v, e2, h2) =
        >>=-eq-ok (require (find voter t.voters) "user must stake before they can vote") _ h1 in
      let (alone, h3) = >>-eq-ok (check (not (is_set proxy) || not v.is_proxy) _) _ h2 in
      let weight = vote_weight host v in
      let (old, e4, h4) = >>=-eq-ok (withdraw_votes host depth v (activate host v t)) _ h3 in
      let (both, e5, h5) =
        >>=-eq-ok (give_votes host depth proxy producers voting weight old) _ h4 in
      let (c, e6, h6) =
        >>=-eq-ok (count_producers host voting both.0 (begin_tally host both.1)) _ h5 in
      let found = required (find voter t.voters) v _ e2 in
      let same1 = withdraw_votes-SameLinks depth v (activate host v t) old e4 in
      let (same2, given) =
        give_votes-SameLinks depth proxy producers voting weight old.0 old.1 both e5 in
      let same3 = count_producers-voters voting both.0 (begin_tally host both.1) c e6 in
      let before : SameLinks t.voters (old.1).voters =
        λ n. same1 n ∙ ap (λ x. link x n) (activate-voters v t) in
      let same : SameLinks t.voters (end_tally host c).voters =
        λ n. ap (λ x. link x n) (end_tally-voters host c ∙ same3) ∙ same2 n ∙ before n in
      let f : VoterInfo F → VoterInfo F =
        λ w. record w { last_vote_weight = weight; producers = producers; proxy = proxy } in
      let here : link t.voters voter ≡ some (v.proxy, v.is_proxy) = rw found refl in
      let (w, stored, kind) =
        linked (find voter (end_tally host c).voters) v.proxy v.is_proxy (same voter ∙ here) in
      (
        v,
        found,
        rw (ok_eq _ _ h6) (λ n.
            modify-link voter proxy v.is_proxy f (end_tally host c).voters w stored refl kind n
            ∙ ap (λ x. if voter == n then some (proxy, v.is_proxy) else x) (same n)),
        check-eq-ok (not (is_set proxy) || not v.is_proxy) _ alone,
        valid,
        λ e. let (q, linked_to) = given e in (q, sym (before proxy) ∙ linked_to),
        (
          f w,
          row_of_result voter (f w) t' _ (ok_eq _ _ h6)
              (modify_same voter f (end_tally host c).voters w stored),
          refl,
          refl,
        ),
      )
