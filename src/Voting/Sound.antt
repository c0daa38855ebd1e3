-- ===== src/Voting/Sound.antt =====
-- Votes through proxies never lead in a circle, contracts/eosio.system/src/voting.cpp: `voteproducer` and
-- `regproxy`.
use eosio_system.Base.{
  ==_iff, ok_eq, taken, ℕ, suc, ◌≡◌, ◌∙◌, refl, sym, ap, inl, inr, Bool, true, false, not, ◌&&◌,
  ◌||◌, Option, none, some, List, arith, ltb, ◌==◌, if◌then◌else◌, Bool-cases, Option-cases, ok,
  check, >>=-eq-ok, >>-eq-ok, check-eq-ok, length,
}
use eosio_system.Base.Int.{pos, ◌+ℤ◌, eqb_ℤ}
use eosio_system.Host.{Host, Name, is_set, require_auth}
use eosio_system.State.{State, VoterInfo, VoteTables}
use eosio_system.Table.{Table, find, put}
use eosio_system.Rex.Account.{update_rex_stake, revalue}
use eosio_system.Rex.Pool.{rex_available}
use eosio_system.Voting.Weight.{set_voters, new_proxy, register_proxy, regproxy}
use eosio_system.Voting.Count.{validate_votes, recount, update_votes, check_rex_vote, voteproducer}
use eosio_system.Voting.Links.{
  link, SameLinks, put-link, put-SameLinks, propagate_weight_change-SameLinks,
}
use eosio_system.Voting.Relink.{recount-link}

-- A voter with a proxy is not a proxy, and stands higher than its proxy.
abbrev pub sound_link : (Name → ℕ) → Name → Option (Name × Bool) → Bool
sound_link rank n none = true
sound_link rank n (some (p, b)) = not (is_set p) || (ltb (rank p) (rank n) && not b)

-- The ranks show that the links from voters to proxies end: each leads to a lower rank.
abbrev pub IsRanked : {F : Type 0} → (Name → ℕ) → Table (VoterInfo F) → Type 0
IsRanked rank t = (n : Name) → sound_link rank n (link t n) ≡ true

-- A proxy that is chosen goes to the bottom, below all others.
abbrev pub lowered : Name → (Name → ℕ) → Name → ℕ
lowered proxy rank n = if n == proxy then 0 else suc (rank n)

lowered_other :
    (proxy q n : Name) (rank : Name → ℕ) (o : Option (Name × Bool))
    → sound_link rank n o ≡ true
    → (n ≡ proxy → o ≡ some (q, true))
    → sound_link (lowered proxy rank) n o ≡ true
lowered_other proxy q n rank none h e = refl
lowered_other proxy q n rank (some (p, b)) h e = grind (arith, e)

lowered_chosen :
    (voter proxy n : Name) (rank : Name → ℕ)
    → (voter == proxy) ≡ false
    → (voter == n) ≡ true
    → sound_link (lowered proxy rank) n (some (proxy, false)) ≡ true
lowered_chosen voter proxy n rank apart e = grind arith

registered_sound :
    (rank : Name → ℕ) (n p : Name) (b isproxy : Bool)
    → sound_link rank n (some (p, b)) ≡ true
    → not isproxy || not (is_set p) ≡ true
    → sound_link rank n (some (p, isproxy)) ≡ true
registered_sound rank n p b isproxy h e = grind arith

is_false : (b : Bool) → not b ≡ true → b ≡ false
is_false false h = refl
is_false true h = cc

validate_votes_apart :
    (voter proxy : Name) (producers : List Name)
    → validate_votes voter proxy producers ≡ ok tt
    → is_set proxy ≡ true
    → (voter == proxy) ≡ false
unfolding validate_votes
validate_votes_apart voter proxy producers h e =
    let h0 = taken (is_set proxy) _ _ _ e h in
    let (_, h1) = >>-eq-ok (check (length producers == 0) _) _ h0 in
    is_false (voter == proxy) (check-eq-ok (not (voter == proxy)) _ h1)

unless : (a b : Bool) → a ≡ true → not a || b ≡ true → b ≡ true
unless true b e h = h
unless false b e h = cc

module _ {F : Type 0} where
  pub SameLinks-IsRanked :
      (rank : Name → ℕ) (t t' : Table (VoterInfo F))
      → SameLinks t t'
      → IsRanked rank t
      → IsRanked rank t'
  SameLinks-IsRanked rank t t' same h n = rw (same n) (h n)

  relinked-IsRanked :
      (rank : Name → ℕ) (voter proxy q : Name) (t t' : Table (VoterInfo F))
      → IsRanked rank t
      → ((n : Name) → link t' n ≡ (if voter == n then some (proxy, false) else link t n))
      → (voter == proxy) ≡ false
      → link t proxy ≡ some (q, true)
      → IsRanked (lowered proxy rank) t'
  relinked-IsRanked rank voter proxy q t t' h linked apart found n =
      elim (Bool-cases (voter == n)) [
        | inl e ↦ rw (linked n, e) (lowered_chosen voter proxy n rank apart e)
        | inr e ↦
            rw (linked n, e)
              (lowered_other proxy q n rank (link t n) (h n) (λ e'. ap (λ x. link t x) e' ∙ found))
      ]

  pub unlinked-IsRanked :
      (rank : Name → ℕ) (voter proxy : Name) (b : Bool) (t t' : Table (VoterInfo F))
      → IsRanked rank t
      → ((n : Name) → link t' n ≡ (if voter == n then some (proxy, b) else link t n))
      → is_set proxy ≡ false
      → IsRanked rank t'
  unlinked-IsRanked rank voter proxy b t t' h linked none_set n = elim (Bool-cases (voter == n)) [
    | inl e ↦ rw (linked n, e, none_set) refl
    | inr e ↦ rw (linked n, e) (h n)
  ]

  renamed-IsRanked :
      (rank : Name → ℕ) (proxy : Name) (v : VoterInfo F) (isproxy : Bool) (t : Table (VoterInfo F))
      → IsRanked rank t
      → find proxy t ≡ some v
      → not isproxy || not (is_set v.proxy) ≡ true
      → IsRanked rank (put proxy (record v { is_proxy = isproxy }) t)
  renamed-IsRanked rank proxy v isproxy t h here alone n =
      let v' = record v { is_proxy = isproxy } in
      elim (Bool-cases (proxy == n)) [
        | inr e ↦ rw (put-link proxy n v' t, e) (h n)
        | inl e ↦
            let same : link t n ≡ some (v.proxy, v.is_proxy) =
              rw (sym ((==_iff proxy n).0 e), here) refl in
            rw (put-link proxy n v' t, e)
              (registered_sound rank n v.proxy v.is_proxy isproxy
                (ap (λ o. sound_link rank n o) (sym same) ∙ h n) alone)
      ]

  update_rex_stake-SameLinks :
      (voter : Name) (s s' : State F)
      → update_rex_stake voter s ≡ ok s'
      → SameLinks s.voting.voters s'.voting.voters
  unfolding update_rex_stake
  update_rex_stake-SameLinks voter s s' h =
      let (out, e1, h1) =
        >>=-eq-ok (if rex_available s.rex then revalue voter s.rex else ok (pos 0, s.rex)) _ h in
      elim (Option-cases (find voter s.voting.voters)) [
        | inl e ↦ rw (ok_eq _ _ h1, e) (λ n. refl)
        | inr (v, e) ↦ elim (Bool-cases (eqb_ℤ out.0 (pos 0))) [
          | inl e' ↦ rw (ok_eq _ _ h1, e, e') (λ n. refl)
          | inr e' ↦
              rw (ok_eq _ _ h1, e, e')
                (put-SameLinks voter (record v { staked = v.staked +ℤ out.0 }) s.voting.voters
                  (rw e refl))
        ]
      ]

module _ (host : Host) where
  open host use {F}

  pub recount-IsRanked :
      (depth : ℕ) (voter proxy : Name) (producers : List Name) (rank : Name → ℕ)
      (t t' : VoteTables F)
      → IsRanked rank t.voters
      → recount host depth voter proxy producers true t ≡ ok t'
      → (rank' : Name → ℕ) × IsRanked rank' t'.voters
  recount-IsRanked depth voter proxy producers rank t t' h returns =
      let (v, found, linked, alone, valid, given, _) =
        recount-link host depth voter proxy producers true t t' returns in
      elim (Bool-cases (is_set proxy)) [
        | inr e ↦
            (rank, unlinked-IsRanked rank voter proxy v.is_proxy t.voters t'.voters h linked e)
        | inl e ↦
            let (q, chosen) = given (rw e refl) in
            let member : v.is_proxy ≡ false =
              is_false v.is_proxy (unless (is_set proxy) (not v.is_proxy) e alone) in
            (
              lowered proxy rank,
              relinked-IsRanked rank voter proxy q t.voters t'.voters h
                  (λ n.
                    linked n
                    ∙ ap (λ b. if voter == n then some (proxy, b) else link t.voters n) member)
                  (validate_votes_apart voter proxy producers valid e) chosen,
            )
      ]

  voted-IsRanked :
      (s1 s2 s' : State F) (t : VoteTables F)
      → s' ≡ s2
      → s2 ≡ record s1 { voting = t }
      → ((rank' : Name → ℕ) × IsRanked rank' t.voters)
      → (rank' : Name → ℕ) × IsRanked rank' s'.voting.voters
  voted-IsRanked s1 s2 s' t e e' h = rw (e, e') h

  pub voteproducer-IsRanked :
      (depth : ℕ) (voter proxy : Name) (producers : List Name) (rank : Name → ℕ) (s s' : State F)
      → IsRanked rank s.voting.voters
      → voteproducer host depth voter proxy producers s ≡ ok s'
      → (rank' : Name → ℕ) × IsRanked rank' s'.voting.voters
  unfolding voteproducer update_votes
  voteproducer-IsRanked depth voter proxy producers rank s s' h returns =
      let (_, h1) = >>-eq-ok (require_auth host voter) _ returns in
      let (s1, e2, h2) = >>=-eq-ok (update_rex_stake voter s) _ h1 in
      let (s2, e3, h3) = >>=-eq-ok (update_votes host depth voter proxy producers true s1) _ h2 in
      let (_, h4) = >>-eq-ok (check_rex_vote host voter s2) _ h3 in
      let (t, e5, h5) = >>=-eq-ok (recount host depth voter proxy producers true s1.voting) _ e3 in
      let kept =
        SameLinks-IsRanked rank s.voting.voters s1.voting.voters
          (update_rex_stake-SameLinks voter s s1 e2) h in
      voted-IsRanked s1 s2 s' t (ok_eq _ _ h4) (ok_eq _ _ h5)
        (recount-IsRanked depth voter proxy producers rank s1.voting t kept e5)

  register_proxy-IsRanked :
      (depth : ℕ) (proxy : Name) (isproxy : Bool) (rank : Name → ℕ) (row : Option (VoterInfo F))
      (t t' : VoteTables F)
      → IsRanked rank t.voters
      → find proxy t.voters ≡ row
      → register_proxy host depth proxy isproxy row t ≡ ok t'
      → IsRanked rank t'.voters
  unfolding register_proxy new_proxy
  register_proxy-IsRanked depth proxy isproxy rank none t t' h here returns =
      rw (ok_eq _ _ returns) (
        unlinked-IsRanked rank proxy 0 isproxy t.voters _ h
          (λ n. put-link proxy n (new_proxy host isproxy) t.voters) refl)
  register_proxy-IsRanked depth proxy isproxy rank (some v) t t' h here returns =
      let (_, h1) = >>-eq-ok (check (if isproxy then not v.is_proxy else v.is_proxy) _) _ returns in
      let (alone, h2) = >>-eq-ok (check (not isproxy || not (is_set v.proxy)) _) _ h1 in
      let v' = record v { is_proxy = isproxy } in
      let t1 = set_voters (put proxy v' t.voters) t in
      SameLinks-IsRanked rank t1.voters t'.voters
        (propagate_weight_change-SameLinks host depth proxy v' t1 t' h2)
        (renamed-IsRanked rank proxy v isproxy t.voters h here
          (check-eq-ok (not isproxy || not (is_set v.proxy)) _ alone))

  pub regproxy-IsRanked :
      (depth : ℕ) (proxy : Name) (isproxy : Bool) (rank : Name → ℕ) (s s' : State F)
      → IsRanked rank s.voting.voters
      → regproxy host depth proxy isproxy s ≡ ok s'
      → IsRanked rank s'.voting.voters
  unfolding regproxy
  regproxy-IsRanked depth proxy isproxy rank s s' h returns =
      let (_, h1) = >>-eq-ok (require_auth host proxy) _ returns in
      let (t, e2, h2) =
        >>=-eq-ok (register_proxy host depth proxy isproxy (find proxy s.voting.voters) s.voting) _
          h1 in
      rw (ok_eq _ _ h2) (
        register_proxy-IsRanked depth proxy isproxy rank (find proxy s.voting.voters) s.voting t h
          refl e2)
