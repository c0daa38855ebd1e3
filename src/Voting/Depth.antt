-- ===== src/Voting/Depth.antt =====
-- The way along the proxies ends, contracts/eosio.system/src/voting.cpp: `propagate_weight_change`.
use eosio_system.Base.{
  leb→le, ℕ, zero, suc, ◌≤◌, ◌<◌, ◌≡◌, ◌∙◌, refl, sym, ap, inl, inr, true, false, some, arith, leb,
  Bool-cases, Option-cases, Result,
}
use eosio_system.Host.{Host, Name, is_set}
use eosio_system.State.{VoterInfo, VoteTables}
use eosio_system.Table.{find-put_same, Table, find, put}
use eosio_system.Voting.Weight.{
  set_voters, vote_weight, pass_on, propagate_step, propagate_weight_change,
}
use eosio_system.Voting.Links.{link_of, put-SameLinks}
use eosio_system.Voting.Sound.{sound_link, IsRanked, SameLinks-IsRanked}

below_proxy :
    {F : Type 0} (rank : Name → ℕ) (voter : Name) (v : VoterInfo F) (t : Table (VoterInfo F))
    → IsRanked rank t
    → find voter t ≡ some v
    → is_set v.proxy ≡ true
    → rank v.proxy < rank voter
below_proxy rank voter v t h here e =
    let sound : sound_link rank voter (some (v.proxy, v.is_proxy)) ≡ true =
      ap (λ o. sound_link rank voter (link_of o)) (sym here) ∙ h voter in
    ground (arith, sound, e)

last_depth : (depth deep : ℕ) → depth ≤ suc deep → leb depth deep ≡ false → suc deep ≡ depth
last_depth depth deep wide e = ground arith

module _ (host : Host) where
  open host use {F}

  -- Two ways to go on that agree at the proxy.
  pass_on_agree :
      (next other : Name → VoterInfo F → VoteTables F → Result (VoteTables F)) (v : VoterInfo F)
      (delta : F) (t : VoteTables F)
      → ((p : VoterInfo F)
          → is_set v.proxy ≡ true
          → find v.proxy t.voters ≡ some p
          → (let p' = record p { proxied_vote_weight = host.fadd p.proxied_vote_weight delta } in
              next v.proxy p' (set_voters (put v.proxy p' t.voters) t)
              ≡ other v.proxy p' (set_voters (put v.proxy p' t.voters) t)))
      → pass_on host next v delta t ≡ pass_on host other v delta t
  unfolding pass_on
  pass_on_agree next other v delta t h = elim (Bool-cases (is_set v.proxy)) [
    | inr e ↦ rw e refl
    | inl e ↦ elim (Option-cases (find v.proxy t.voters)) [
      | inl none_there ↦ rw (e, none_there) refl
      | inr (p, there) ↦ rw (e, there) (h p e there)
    ]
  ]

  propagate_step_agree :
      (next other : Name → VoterInfo F → VoteTables F → Result (VoteTables F)) (voter : Name)
      (v : VoterInfo F) (t : VoteTables F)
      → ((delta : F) → pass_on host next v delta t ≡ pass_on host other v delta t)
      → propagate_step host next voter v t ≡ propagate_step host other voter v t
  unfolding propagate_step
  propagate_step_agree next other voter v t h =
      rw (h (host.fsub (vote_weight host v) v.last_vote_weight)) refl

  propagate_one_more :
      (rank : Name → ℕ) (depth : ℕ) (voter : Name) (v : VoterInfo F) (t : VoteTables F)
      → IsRanked rank t.voters
      → find voter t.voters ≡ some v
      → rank voter < depth
      → propagate_weight_change host (suc depth) voter v t
        ≡ propagate_weight_change host depth voter v t
  unfolding propagate_weight_change
  propagate_one_more rank zero voter v t h here low = absurd (omega (arith, low))
  propagate_one_more rank (suc depth) voter v t h here low =
      let next : Name → VoterInfo F → VoteTables F → Result (VoteTables F) =
        λ p q u. propagate_weight_change host (suc depth) p q u in
      let other : Name → VoterInfo F → VoteTables F → Result (VoteTables F) =
        λ p q u. propagate_weight_change host depth p q u in
      propagate_step_agree next other voter v t (λ delta.
        pass_on_agree next other v delta t (λ p e there.
          let p' = record p { proxied_vote_weight = host.fadd p.proxied_vote_weight delta } in
          let t1 = set_voters (put v.proxy p' t.voters) t in
          propagate_one_more rank depth v.proxy p' t1
            (SameLinks-IsRanked rank t.voters t1.voters
              (put-SameLinks v.proxy p' t.voters (rw there refl)) h)
            (find-put_same v.proxy p' t.voters)
            (omega (arith, low, below_proxy rank voter v t.voters h here e))))

  -- Passing a change of weight on along the proxies ends: where ranks show that votes do not lead in a
  -- circle, from a stored voter whose rank is less than the depth of nested calls that is allowed, the
  -- result is the same with any larger depth.
  pub propagate_weight_change_depth :
      (rank : Name → ℕ) (depth deep : ℕ) (voter : Name) (v : VoterInfo F) (t : VoteTables F)
      → IsRanked rank t.voters
      → find voter t.voters ≡ some v
      → rank voter < depth
      → depth ≤ deep
      → propagate_weight_change host deep voter v t ≡ propagate_weight_change host depth voter v t
  propagate_weight_change_depth rank depth zero voter v t h here low wide =
      absurd (omega (arith, low, wide))
  propagate_weight_change_depth rank depth (suc deep) voter v t h here low wide =
      elim (Bool-cases (leb depth deep)) [
        | inl e ↦
            let within = leb→le depth deep e in
            propagate_one_more rank deep voter v t h here (omega (arith, low, within))
            ∙ propagate_weight_change_depth rank depth deep voter v t h here low within
        | inr e ↦ ap (λ d. propagate_weight_change host d voter v t) (last_depth depth deep wide e)
      ]
