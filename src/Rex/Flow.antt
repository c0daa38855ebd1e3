-- ===== src/Rex/Flow.antt =====
-- What flows from the return pool into the REX pool, contracts/eosio.system/src/rex.cpp.
use eosio_system.Base.{
  ℕ, ◌<◌, ◌≡◌, ◌∙◌, refl, inl, inr, true, false, none, some, arith, leb, if◌then◌else◌, Bool-cases,
  ok, Result-cases,
}
use eosio_system.Base.Int.{ℤ, pos, ◌+ℤ◌, ◌*ℤ◌, ltb_ℤ, max_ℤ, int_laws}
use eosio_system.Host.{Host, add_amount, HasAssets}
use eosio_system.State.{RexPool, RexReturnPool, Buckets, RexTables}
use eosio_system.Rex.Price.{IsSplit}
use eosio_system.Rex.Returns.{
  start_pending, take_due, expire, cap_change, distribute, get_elapsed_intervals, pay_out,
  update_rex_pool, effective_time,
}

expire-proceeds :
    (now : ℕ) (rp : RexReturnPool) (b : Buckets) (change : ℤ)
    → let (rp', b', change') = expire now (rp, b, change) in
      rp'.proceeds +ℤ change' ≡ rp.proceeds +ℤ change
unfolding expire
expire-proceeds now rp b change = grind int_laws

cap_change-proceeds :
    (rp : RexReturnPool) (b : Buckets) (change : ℤ)
    → let (rp', b', change') = cap_change (rp, b, change) in
      rp'.proceeds +ℤ change' ≡ rp.proceeds +ℤ change
unfolding cap_change
cap_change-proceeds rp b change = grind int_laws

take_due-proceeds :
    (now : ℕ) (rp : RexReturnPool) (b : Buckets) (change : ℤ)
    → let (rp', b', change') = take_due now (rp, b, change) in rp'.proceeds +ℤ change' ≡ rp.proceeds
unfolding take_due
take_due-proceeds now rp b change = omega int_laws

start_pending-proceeds :
    (now : ℕ) (rp : RexReturnPool) (b : Buckets) (change : ℤ)
    → (start_pending now (rp, b, change)).0.proceeds ≡ rp.proceeds
unfolding start_pending
start_pending-proceeds now rp b change = ground arith

-- A distribution of the return pool takes exactly what it hands out from its proceeds.
pub distribute-proceeds :
    (now : ℕ) (rp : RexReturnPool) (b : Buckets)
    → let (rp', b', change) = distribute now rp b in rp'.proceeds +ℤ change ≡ rp.proceeds
unfolding distribute
distribute-proceeds now rp b =
    let change = rp.current_rate_of_increase *ℤ pos (get_elapsed_intervals now rp.last_dist_time) in
    let (rp1, b1, c1) = start_pending now (rp, b, change) in
    let (rp2, b2, c2) = take_due now (rp1, b1, c1) in
    let (rp3, b3, c3) = expire now (rp2, b2, c2) in
    cap_change-proceeds rp3 b3 c3
    ∙ expire-proceeds now rp2 b2 c2
    ∙ take_due-proceeds now rp1 b1 c1
    ∙ start_pending-proceeds now rp b change

module _ (host : Host) where
  pay_out_lem :
      (laws : HasAssets host) (change : ℤ) (p : RexPool) (t t' : RexTables)
      → t.rexpool ≡ some p
      → pay_out host change t ≡ ok t'
      → (p' : RexPool) × (t' ≡ record t { rexpool = some p' })
        × (p'.total_unlent.amount ≡ p.total_unlent.amount +ℤ change)
        × (p'.total_lendable.amount ≡ p'.total_unlent.amount +ℤ p'.total_lent.amount)
        × (p'.total_lent ≡ p.total_lent)
        × (p'.total_rex ≡ p.total_rex)
        × (p'.total_rent ≡ p.total_rent)
  unfolding pay_out
  pay_out_lem laws change p t t' ep h =
      let unlent = add_amount p.total_unlent change in
      elim (Result-cases (host.asset_add unlent p.total_lent)) [
        | inl (m, r) ↦ absurd (ground (arith, ep, r))
        | inr (c, r) ↦
            let (sum_of, _) = laws.asset_add_ok unlent p.total_lent c r in
            (
              record p { total_unlent = unlent; total_lendable = c },
              ground (arith, ep, r),
              refl,
              sum_of,
              refl,
              refl,
              refl,
            )
      ]

  -- The tables where something may be distributed.
  update_rex_pool_due :
      (rp : RexReturnPool) (t : RexTables)
      → t.rexretpool ≡ some rp
      → rp.last_dist_time < effective_time host
      → let (rp1, b, change) = distribute (effective_time host) rp t.rexretbuckets in
        let t1 : RexTables = record t { rexretpool = some rp1; rexretbuckets = b } in
        update_rex_pool host t ≡ (if ltb_ℤ (pos 0) change then pay_out host change t1 else ok t1)
  unfolding update_rex_pool
  update_rex_pool_due rp t er later =
      let not_yet : leb (effective_time host) rp.last_dist_time ≡ false = ground arith in
      rw er (rw not_yet refl)

  -- From the next interval on, when `update_rex_pool` does not abort on a pool whose lendable tokens
  -- are those unlent and those lent, the unlent tokens grow by the change that is distributed, where
  -- it is positive, and never shrink; the change comes out of the proceeds of the return pool; the
  -- lendable tokens stay those unlent and those lent; and nothing else changes but the return pool and
  -- its buckets.
  pub update_rex_pool_pays :
      (laws : HasAssets host) (p : RexPool) (rp : RexReturnPool) (t t' : RexTables)
      → t.rexpool ≡ some p
      → t.rexretpool ≡ some rp
      → rp.last_dist_time < effective_time host
      → IsSplit p
      → update_rex_pool host t ≡ ok t'
      → let (rp1, b, change) = distribute (effective_time host) rp t.rexretbuckets in
        (p' : RexPool) × (t'
          ≡ record t { rexpool = some p'; rexretpool = some rp1; rexretbuckets = b })
        × (rp1.proceeds +ℤ change ≡ rp.proceeds)
        × (p'.total_unlent.amount ≡ p.total_unlent.amount +ℤ max_ℤ (pos 0) change)
        × (p'.total_lendable.amount ≡ p'.total_unlent.amount +ℤ p'.total_lent.amount)
        × (p'.total_lent ≡ p.total_lent)
        × (p'.total_rex ≡ p.total_rex)
        × (p'.total_rent ≡ p.total_rent)
  update_rex_pool_pays laws p rp t t' ep er later v h =
      let (rp1, b, change) = distribute (effective_time host) rp t.rexretbuckets in
      let t1 : RexTables = record t { rexretpool = some rp1; rexretbuckets = b } in
      let h1 = rw (update_rex_pool_due rp t er later) at h in
      let taken = distribute-proceeds (effective_time host) rp t.rexretbuckets in
      elim (Bool-cases (ltb_ℤ (pos 0) change)) [
        | inl e ↦
            let (p', et, eu, es, el, ex, en) = pay_out_lem laws change p t1 t' ep (rw e at h1) in
            (p', et, taken, rw e eu, es, el, ex, en)
        | inr e ↦
            let same : t1 ≡ t' = ground (arith, rw e at h1) in
            (p, ground (arith, same, ep), taken, rw e (omega int_laws), v, refl, refl, refl)
      ]

  -- Without a return pool, or before the next interval, nothing happens.
  pub update_rex_pool-none : (t : RexTables) → t.rexretpool ≡ none → update_rex_pool host t ≡ ok t
  unfolding update_rex_pool
  update_rex_pool-none t e = ground (arith, e)

  pub update_rex_pool_early :
      (t : RexTables) (rp : RexReturnPool)
      → t.rexretpool ≡ some rp
      → leb (effective_time host) rp.last_dist_time ≡ true
      → update_rex_pool host t ≡ ok t
  unfolding update_rex_pool
  update_rex_pool_early t rp e early = ground (arith, e, early)
