-- ===== src/Resources/Weights.antt =====
-- The weights and the limits of accounts, contracts/eosio.system/src/rex.cpp: `update_resource_limits`.
use eosio_system.Base.{
  taken, not_taken, ok_eq, ℕ, ◌≡◌, ◌≢◌, ◌⊎◌, ◌∙◌, refl, sym, ap, inl, inr, Bool, true, false, not,
  ◌&&◌, ◌||◌, Option, none, some, arith, ◌==◌, if◌then◌else◌, Bool-cases, ok, check, >>-eq-ok,
  check-eq-ok,
}
use eosio_system.Base.Int.{ℤ, pos, ◌+ℤ◌, ◌≤ℤ◌, leb_ℤ, leb_ℤ→le, eqb_ℤ, int_laws, eq_of_parts}
use eosio_system.Host.{Host, Name}
use eosio_system.State.{State, UserResources, resources_empty}
use eosio_system.Resources.{
  is_present, is_managed, net_managed, cpu_managed, set_limits, add_weights, store_resources,
  change_weights, update_resource_limits, update_resource_limits_frame,
}
use eosio_system.Table.{find-put_same, Table, find, erase, find-put, find-erase_ne}

-- The weights of an account, which is nothing without a row.
abbrev pub net_of : Option UserResources → ℤ
net_of none = pos 0
net_of (some r) = r.net_weight.amount

abbrev pub cpu_of : Option UserResources → ℤ
cpu_of none = pos 0
cpu_of (some r) = r.cpu_weight.amount

empty_weights :
    (r : UserResources)
    → resources_empty r ≡ true
    → (r.net_weight.amount ≡ pos 0) × (r.cpu_weight.amount ≡ pos 0)
empty_weights r h = (ground (arith, h), ground (arith, h))

nothing_added : (b : Bool) (x : ℤ) → x ≡ x +ℤ (if b then pos 0 else pos 0)
nothing_added true x = eq_of_parts _ _ (omega int_laws)
nothing_added false x = eq_of_parts _ _ (omega int_laws)

module _ (host : Host) where
  open host use {F}

  -- The row that is found after a row is stored, or erased for being empty, has the weights of the row.
  find-store_resources :
      (receiver account : Name) (r : UserResources) (t : Table UserResources)
      → find receiver (erase receiver t) ≡ none
      → (net_of (find account (store_resources host receiver r t))
          ≡ (if receiver == account then r.net_weight.amount else net_of (find account t)))
        × (cpu_of (find account (store_resources host receiver r t))
            ≡ (if receiver == account then r.cpu_weight.amount else cpu_of (find account t)))
  find-store_resources receiver account r t single = elim (Bool-cases (receiver == account)) [
    | inl e ↦
        let same : receiver ≡ account = ground (arith, e) in
        elim (Bool-cases (resources_empty r)) [
          | inl empty ↦
              let (n, c) = empty_weights r empty in rw (e, empty, ← same, single) (sym n, sym c)
          | inr kept ↦ rw (e, kept, ← same, find-put_same receiver r t) (refl, refl)
        ]
    | inr e ↦
        let other : receiver ≢ account = ground (arith, e) in
        elim (Bool-cases (resources_empty r)) [
          | inl empty ↦ rw (e, empty, find-erase_ne receiver account t other) (refl, refl)
          | inr kept ↦ rw (e, kept, find-put receiver account r t, e) (refl, refl)
        ]
  ]

  -- The weights are not negative, and what the contract manages is limited by the weight.
  pub record IsLimited (account : Name) (s : State F) : Type 0 where
    pub net_nonneg : pos 0 ≤ℤ net_of (find account s.stake.userres)
    pub cpu_nonneg : pos 0 ≤ℤ cpu_of (find account s.stake.userres)
    pub net_limit :
        (is_managed host net_managed account s ≡ true)
        ⊎ ((s.stake.limits account).net ≡ net_of (find account s.stake.userres))
    pub cpu_limit :
        (is_managed host cpu_managed account s ≡ true)
        ⊎ ((s.stake.limits account).cpu ≡ cpu_of (find account s.stake.userres))

  is_managed_same :
      (field account : ℕ) (s s' : State F)
      → s'.voting ≡ s.voting
      → is_managed host field account s' ≡ is_managed host field account s
  unfolding is_managed
  is_managed_same field account s s' same = rw same refl

  added_weights :
      (row : Option UserResources) (net cpu : ℤ)
      → ((add_weights host row net cpu).net_weight.amount ≡ net_of row +ℤ net)
        × ((add_weights host row net cpu).cpu_weight.amount ≡ cpu_of row +ℤ cpu)
  added_weights none net cpu = (eq_of_parts _ _ (omega int_laws), eq_of_parts _ _ (omega int_laws))
  added_weights (some r) net cpu = (refl, refl)

  -- What `set_resource_limits` leaves as limits.
  limits_after :
      (receiver account : Name) (net_kept cpu_kept : Bool) (net cpu : ℤ) (s : State F)
      → let l = s.stake.limits receiver in
        let l' = record l {
          net = if net_kept then l.net else net;
          cpu = if cpu_kept then l.cpu else cpu;
        } in
        let s' = if net_kept && cpu_kept then s else set_limits host receiver l' s in
        ((s'.stake.limits account).net
          ≡ (if receiver == account && not net_kept then net else (s.stake.limits account).net))
        × ((s'.stake.limits account).cpu
            ≡ (if receiver == account && not cpu_kept then cpu else (s.stake.limits account).cpu))
  limits_after receiver account net_kept cpu_kept net cpu s =
      elim (Bool-cases (receiver == account)) [
        | inl e ↦
            let same : receiver ≡ account = ground (arith, e) in
            rw (← same) (ground arith, ground arith)
        | inr e ↦
            let e' : (account == receiver) ≡ false = ground (arith, e) in
            (ground (arith, e, e'), ground (arith, e, e'))
      ]

  -- The weights of an account after those of the receiver are changed.
  abbrev pub Moves : Name → Name → ℤ → ℤ → State F → State F → Type 0
  Moves receiver account net cpu s s' =
      (net_of (find account s'.stake.userres)
        ≡ net_of (find account s.stake.userres) +ℤ (if receiver == account then net else pos 0))
      × (cpu_of (find account s'.stake.userres)
          ≡ cpu_of (find account s.stake.userres) +ℤ (if receiver == account then cpu else pos 0))

  kept_or_set :
      (managed : Bool) (limit old weight weight' : ℤ)
      → (limit ≡ (if not managed then weight else old))
      → weight' ≡ weight
      → (managed ≡ true) ⊎ (limit ≡ weight')
  kept_or_set true limit old weight weight' h e = inl refl
  kept_or_set false limit old weight weight' h e = inr (h ∙ sym e)

  change_weights-IsLimited :
      (receiver account : Name) (net cpu : ℤ) (s s' : State F)
      → change_weights host receiver net cpu s ≡ ok s'
      → s'.voting ≡ s.voting
      → find receiver (erase receiver s.stake.userres) ≡ none
      → IsLimited account s
      → IsLimited account s' × Moves receiver account net cpu s s'
  unfolding change_weights
  change_weights-IsLimited receiver account net cpu s s' h voting single v =
      let row = find receiver s.stake.userres in
      let tot = add_weights host row net cpu in
      let net_kept = is_managed host net_managed receiver s in
      let cpu_kept = is_managed host cpu_managed receiver s in
      let (_, h1) =
        >>-eq-ok (check (is_present host row || leb_ℤ (pos 0) net && leb_ℤ (pos 0) cpu) _) _ h in
      let (cn, h2) = >>-eq-ok (check (leb_ℤ (pos 0) tot.net_weight.amount) _) _ h1 in
      let (cc, h3) = >>-eq-ok (check (leb_ℤ (pos 0) tot.cpu_weight.amount) _) _ h2 in
      let result = ok_eq _ _ h3 in
      let net_enough =
        leb_ℤ→le (pos 0) tot.net_weight.amount
          (check-eq-ok (leb_ℤ (pos 0) tot.net_weight.amount) _ cn) in
      let cpu_enough =
        leb_ℤ→le (pos 0) tot.cpu_weight.amount
          (check-eq-ok (leb_ℤ (pos 0) tot.cpu_weight.amount) _ cc) in
      let (net_added, cpu_added) = added_weights row net cpu in
      let (net_found, cpu_found) =
        find-store_resources receiver account tot s.stake.userres single in
      let (net_limit, cpu_limit) =
        limits_after receiver account net_kept cpu_kept tot.net_weight.amount tot.cpu_weight.amount
          s in
      let net_same = is_managed_same net_managed account s s' voting in
      let cpu_same = is_managed_same cpu_managed account s s' voting in
      elim (Bool-cases (receiver == account)) [
        | inl e ↦
            let same : receiver ≡ account = ground (arith, e) in
            let nf : net_of (find account s'.stake.userres) ≡ tot.net_weight.amount =
              rw result (rw e at net_found) in
            let cf : cpu_of (find account s'.stake.userres) ≡ tot.cpu_weight.amount =
              rw result (rw e at cpu_found) in
            let net_set : (s'.stake.limits account).net
                ≡ (if not net_kept then tot.net_weight.amount else (s.stake.limits account).net) =
              rw result (rw e at net_limit) in
            let cpu_set : (s'.stake.limits account).cpu
                ≡ (if not cpu_kept then tot.cpu_weight.amount else (s.stake.limits account).cpu) =
              rw result (rw e at cpu_limit) in
            let managed_net =
              net_same ∙ ap (λ (a : ℕ). is_managed host net_managed a s) (sym same) in
            let managed_cpu =
              cpu_same ∙ ap (λ (a : ℕ). is_managed host cpu_managed a s) (sym same) in
            (
              record {
                net_nonneg = rw nf net_enough;
                cpu_nonneg = rw cf cpu_enough;
                net_limit = rw managed_net (kept_or_set net_kept _ _ _ _ net_set nf);
                cpu_limit = rw managed_cpu (kept_or_set cpu_kept _ _ _ _ cpu_set cf);
              },
              (
                rw e (nf ∙ net_added ∙ ap (λ (a : ℕ). net_of (find a s.stake.userres) +ℤ net) same),
                rw e (cf ∙ cpu_added ∙ ap (λ (a : ℕ). cpu_of (find a s.stake.userres) +ℤ cpu) same),
              ),
            )
        | inr e ↦
            let nf : net_of (find account s'.stake.userres)
                ≡ net_of (find account s.stake.userres) =
              rw result (rw e at net_found) in
            let cf : cpu_of (find account s'.stake.userres)
                ≡ cpu_of (find account s.stake.userres) =
              rw result (rw e at cpu_found) in
            let nl : (s'.stake.limits account).net ≡ (s.stake.limits account).net =
              rw result (rw e at net_limit) in
            let cl : (s'.stake.limits account).cpu ≡ (s.stake.limits account).cpu =
              rw result (rw e at cpu_limit) in
            (
              record {
                net_nonneg = rw nf v.net_nonneg;
                cpu_nonneg = rw cf v.cpu_nonneg;
                net_limit = rw (net_same, nl, nf) v.net_limit;
                cpu_limit = rw (cpu_same, cl, cf) v.cpu_limit;
              },
              (
                rw (nf, e) (eq_of_parts _ _ (omega int_laws)),
                rw (cf, e) (eq_of_parts _ _ (omega int_laws)),
              ),
            )
      ]

  -- Where the receiver has at most one row, an `update_resource_limits` that does not abort adds the
  -- changes to the weights of the receiver and to those of no other account. Every account whose
  -- weights are not negative, and whose limits are its weights unless they are managed by hand, stays
  -- so.
  pub update_resource_limits-IsLimited :
      (from receiver account : Name) (net cpu : ℤ) (s s' : State F)
      → update_resource_limits host from receiver net cpu s ≡ ok s'
      → find receiver (erase receiver s.stake.userres) ≡ none
      → IsLimited account s
      → IsLimited account s' × Moves receiver account net cpu s s'
  unfolding update_resource_limits
  update_resource_limits-IsLimited from receiver account net cpu s s' h single v =
      let voting = (update_resource_limits_frame host from receiver net cpu s s' h).1 in
      let none_due = eqb_ℤ cpu (pos 0) && eqb_ℤ net (pos 0) in
      elim (Bool-cases none_due) [
        | inl e ↦
            let same = ok_eq _ _ (taken none_due _ _ _ e h) in
            let no_net : net ≡ pos 0 = ground (arith, e) in
            let no_cpu : cpu ≡ pos 0 = ground (arith, e) in
            (
              rw same v,
              (
                rw (same, no_net) (nothing_added (receiver == account) _),
                rw (same, no_cpu) (nothing_added (receiver == account) _),
              ),
            )
        | inr e ↦
            change_weights-IsLimited receiver account net cpu s s' (not_taken none_due _ _ _ e h)
              voting single v
      ]
