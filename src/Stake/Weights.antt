-- ===== src/Stake/Weights.antt =====
-- What a change adds to the delegations of an account and to the totals of a receiver,
-- contracts/eosio.system/src/delegate_bandwidth.cpp.
use eosio_system.Base.{
  ok_eq, ◌≡◌, refl, inl, inr, ◌&&◌, Option, none, some, Bool-cases, ok, check, >>=-eq-ok, >>-eq-ok,
}
use eosio_system.Base.Int.{pos, ◌+ℤ◌, leb_ℤ, int_laws, parts_eq, eq_of_parts}
use eosio_system.Host.{Host, Name, Asset, HasAssets}
use eosio_system.State.{State, UserResources, DelegatedBandwidth, resources_empty, delegation_empty}
use eosio_system.Table.{Table, find}
use eosio_system.Table.Sum.{amount_at}
use eosio_system.Resources.{is_managed, net_managed, cpu_managed}
use eosio_system.Stake.Change.{more_delegated, move_delegation, more_total, limit_all, move_total}
use eosio_system.Stake.Sums.{all_delegated, all_weights, empty_amounts, kept_sum, empty_total}

module _ (host : Host) (laws : HasAssets host) where
  open host use {F, asset_add, asset_sub}

  more_delegated-adds :
      (net cpu : Asset) (o : Option DelegatedBandwidth) (d : DelegatedBandwidth)
      → more_delegated host net cpu o ≡ ok d
      → d.net_weight.amount +ℤ d.cpu_weight.amount
        ≡ amount_at (λ (x : DelegatedBandwidth). x.net_weight.amount +ℤ x.cpu_weight.amount) o
          +ℤ (net.amount +ℤ cpu.amount)
  unfolding more_delegated amount_at
  more_delegated-adds net cpu none d h = rw (ok_eq _ _ h) (omega int_laws)
  more_delegated-adds net cpu (some x) d h =
      let (n, e1, h1) = >>=-eq-ok (asset_add x.net_weight net) _ h in
      let (c, e2, h2) = >>=-eq-ok (asset_add x.cpu_weight cpu) _ h1 in
      let (more_net, _) = laws.asset_add_ok x.net_weight net n e1 in
      let (more_cpu, _) = laws.asset_add_ok x.cpu_weight cpu c e2 in
      rw (ok_eq _ _ h2)
        (eq_of_parts _ _ (omega (int_laws, parts_eq _ _ more_net, parts_eq _ _ more_cpu)))

  pub move_delegation-adds :
      (net cpu : Asset) (receiver : Name) (t t' : Table DelegatedBandwidth)
      → move_delegation host net cpu receiver t ≡ ok t'
      → all_delegated t' ≡ all_delegated t +ℤ (net.amount +ℤ cpu.amount)
  unfolding move_delegation
  move_delegation-adds net cpu receiver t t' h =
      let weight = λ (x : DelegatedBandwidth). x.net_weight.amount +ℤ x.cpu_weight.amount in
      let (d, e1, h1) = >>=-eq-ok (more_delegated host net cpu (find receiver t)) _ h in
      let (_, h2) = >>-eq-ok (check (leb_ℤ (pos 0) d.net_weight.amount) _) _ h1 in
      let (_, h3) = >>-eq-ok (check (leb_ℤ (pos 0) d.cpu_weight.amount) _) _ h2 in
      let stored =
        kept_sum weight receiver (delegation_empty d) d t
          (empty_amounts d.net_weight.amount d.cpu_weight.amount) in
      let more = more_delegated-adds net cpu (find receiver t) d e1 in
      rw (ok_eq _ _ h3) (eq_of_parts _ _ (omega (int_laws, parts_eq _ _ stored, parts_eq _ _ more)))

  more_total-adds :
      (net cpu : Asset) (o : Option UserResources) (d : UserResources)
      → more_total host net cpu o ≡ ok d
      → d.net_weight.amount +ℤ d.cpu_weight.amount
        ≡ amount_at (λ (x : UserResources). x.net_weight.amount +ℤ x.cpu_weight.amount) o
          +ℤ (net.amount +ℤ cpu.amount)
  unfolding more_total amount_at
  more_total-adds net cpu none d h = rw (ok_eq _ _ h) (omega int_laws)
  more_total-adds net cpu (some x) d h =
      let (n, e1, h1) = >>=-eq-ok (asset_add x.net_weight net) _ h in
      let (c, e2, h2) = >>=-eq-ok (asset_add x.cpu_weight cpu) _ h1 in
      let (more_net, _) = laws.asset_add_ok x.net_weight net n e1 in
      let (more_cpu, _) = laws.asset_add_ok x.cpu_weight cpu c e2 in
      rw (ok_eq _ _ h2)
        (eq_of_parts _ _ (omega (int_laws, parts_eq _ _ more_net, parts_eq _ _ more_cpu)))

  limit_all-kept :
      (receiver : Name) (tot : UserResources) (s : State F)
      → (limit_all host receiver tot s).stake.delband ≡ s.stake.delband
        × (limit_all host receiver tot s).stake.refunds ≡ s.stake.refunds
        × (limit_all host receiver tot s).sent ≡ s.sent
  unfolding limit_all
  limit_all-kept receiver tot s =
      elim (Bool-cases
        (is_managed host net_managed receiver s && is_managed host cpu_managed receiver s)) [
          | inl e ↦ rw e (refl, refl, refl)
          | inr e ↦ rw e (refl, refl, refl)
        ]

  pub move_total-adds :
      (net cpu : Asset) (receiver : Name) (s s' : State F)
      → move_total host net cpu receiver s ≡ ok s'
      → all_weights s'.stake.userres ≡ all_weights s.stake.userres +ℤ (net.amount +ℤ cpu.amount)
        × s'.stake.delband ≡ s.stake.delband
        × s'.stake.refunds ≡ s.stake.refunds
        × s'.sent ≡ s.sent
  unfolding move_total
  move_total-adds net cpu receiver s s' h =
      let weight = λ (x : UserResources). x.net_weight.amount +ℤ x.cpu_weight.amount in
      let (d, e1, h1) = >>=-eq-ok (more_total host net cpu (find receiver s.stake.userres)) _ h in
      let (_, h2) = >>-eq-ok (check (leb_ℤ (pos 0) d.net_weight.amount) _) _ h1 in
      let (_, h3) = >>-eq-ok (check (leb_ℤ (pos 0) d.cpu_weight.amount) _) _ h2 in
      let stored = kept_sum weight receiver (resources_empty d) d s.stake.userres (empty_total d) in
      let more = more_total-adds net cpu (find receiver s.stake.userres) d e1 in
      let (same_band, same_refunds, same_sent) = limit_all-kept receiver d s in
      rw (ok_eq _ _ h3) (
        eq_of_parts _ _ (omega (int_laws, parts_eq _ _ stored, parts_eq _ _ more)),
        same_band,
        same_refunds,
        same_sent,
      )
