-- ===== src/Rex/Pacing.antt =====
-- The rates and the buckets of the return pool, contracts/eosio.system/src/rex.cpp, `update_rex_pool`.
use eosio_system.Base.{
  ℕ, zero, suc, ◌+◌, ◌-◌, ◌%◌, ◌^◌, ◌≤◌, ◌<◌, ◌≡◌, refl, inl, inr, ◌&&◌, [], ◌∷◌, arith, leb,
  if◌then◌else◌, Bool-cases,
}
use eosio_system.Base.Int.{
  ℤ, pos, negsuc, ◌+ℤ◌, ◌-ℤ◌, ◌*ℤ◌, ◌≤ℤ◌, ltb_ℤ, quot, rem, int_laws, parts_eq, eq_of_parts, -ℤ_pos,
}
use eosio_system.Host.{end_of_days}
use eosio_system.State.{RexReturnPool, Buckets}
use native.Mathlib.Nat.{mod-le}
use eosio_system.Rex.Savings.{held_in, Ascends, Ascends-lower}
use eosio_system.Rex.Returns.{
  start_pending, take_due, drop_expired, expire, cap_change, distribute, set_bucket,
  get_elapsed_intervals, distribution, total_intervals,
}

-- Every bucket is dropped, with its rate in `expired`, or stays.
drop_expired-held :
    (threshold now : ℕ) (surplus expired : ℤ) (b : Buckets)
    → let (_, expired', b') = drop_expired threshold now surplus expired b in
      expired' +ℤ held_in b' ≡ expired +ℤ held_in b
unfolding drop_expired held_in
drop_expired-held threshold now surplus expired [] = refl
drop_expired-held threshold now surplus expired ((t, x) ∷ b) =
    let overtime = get_elapsed_intervals now ((t + distribution) % 2 ^ 32) in
    grind
      (int_laws, drop_expired-held threshold now (surplus +ℤ x *ℤ pos overtime) (expired +ℤ x) b)

drop_expired-Ascends :
    (threshold now lo hi : ℕ) (surplus expired : ℤ) (b : Buckets)
    → Ascends lo hi b
    → pos 0 ≤ℤ expired
    → let (_, expired', b') = drop_expired threshold now surplus expired b in
      (pos 0 ≤ℤ expired') × Ascends lo hi b'
unfolding drop_expired
drop_expired-Ascends threshold now lo hi surplus expired [] h p = (p, tt)
drop_expired-Ascends threshold now lo hi surplus expired ((t, x) ∷ b) h p =
    let overtime = get_elapsed_intervals now ((t + distribution) % 2 ^ 32) in
    let (p', rest) =
      drop_expired-Ascends threshold now (t + 1) hi (surplus +ℤ x *ℤ pos overtime) (expired +ℤ x) b
        h.3 (omega int_laws) in
    elim (Bool-cases (leb t threshold)) [
      | inl e ↦ rw e (p', Ascends-lower (t + 1) lo hi _ (omega arith) rest)
      | inr e ↦ rw e (p, h)
    ]

-- The rate of increase is that of the buckets together; their times ascend up to the pending one.
pub record IsPaced (rp : RexReturnPool) (b : Buckets) : Type 0 where
  pub rate : rp.current_rate_of_increase ≡ held_in b
  pub pending_nonneg : pos 0 ≤ℤ rp.pending_bucket_proceeds
  pub pending_time : rp.pending_bucket_time ≤ end_of_days
  pub ascending : Ascends 0 rp.pending_bucket_time b

set_bucket-held :
    (lo t : ℕ) (rate : ℤ) (b : Buckets)
    → Ascends lo t b
    → held_in (set_bucket t rate b) ≡ held_in b +ℤ rate
unfolding set_bucket held_in
set_bucket-held lo t rate [] h = omega int_laws
set_bucket-held lo t rate ((u, x) ∷ b) h = grind (int_laws, set_bucket-held (u + 1) t rate b h.3)

set_bucket-Ascends :
    (lo t hi : ℕ) (rate : ℤ) (b : Buckets)
    → Ascends lo t b
    → lo ≤ t
    → t < hi
    → pos 0 ≤ℤ rate
    → Ascends lo hi (set_bucket t rate b)
unfolding set_bucket
set_bucket-Ascends lo t hi rate [] h le lt p = omega arith
set_bucket-Ascends lo t hi rate ((u, x) ∷ b) h le lt p =
    ground (arith, set_bucket-Ascends (u + 1) t hi rate b h.3 (omega arith) lt p)

rate_nonneg : (a : ℤ) (k : ℕ) → pos 0 ≤ℤ a → pos 0 ≤ℤ quot (a -ℤ rem a k) k
rate_nonneg (pos n) k p = rw (-ℤ_pos n (n % k) (mod-le n k)) (omega arith)
rate_nonneg (negsuc n) k p = absurd (omega arith)

start_pending-IsPaced :
    (now : ℕ) (rp : RexReturnPool) (b : Buckets) (change : ℤ)
    → now < end_of_days
    → IsPaced rp b
    → let (rp', b', _) = start_pending now (rp, b, change) in IsPaced rp' b'
unfolding start_pending
start_pending-IsPaced now rp b change lt v =
    let t = rp.pending_bucket_time in
    let p = rp.pending_bucket_proceeds in
    let rate = quot (p -ℤ rem p total_intervals) total_intervals in
    let pr = rate_nonneg p total_intervals v.pending_nonneg in
    elim (Bool-cases (leb t now)) [
      | inl e ↦
          let le : t ≤ now = ground arith in
          rw e (record {
            rate = rw (set_bucket-held 0 t rate b v.ascending, v.rate) refl;
            pending_nonneg = omega arith;
            pending_time = omega arith;
            ascending =
                set_bucket-Ascends 0 t end_of_days rate b v.ascending (omega arith) (omega arith)
                  pr;
          })
      | inr e ↦ rw e v
    ]

expired_rate :
    (rate expired held : ℤ)
    → pos 0 ≤ℤ expired
    → rate ≡ expired +ℤ held
    → (if ltb_ℤ (pos 0) expired then rate -ℤ expired else rate) ≡ held
expired_rate rate (pos zero) held p e = grind int_laws
expired_rate rate (pos (suc n)) held p e =
    let d : rate -ℤ pos (suc n) ≡ held = eq_of_parts _ _ (omega (int_laws, parts_eq _ _ e)) in
    ground (arith, d)
expired_rate rate (negsuc n) held p e = absurd (omega arith)

expire-IsPaced :
    (now : ℕ) (rp : RexReturnPool) (b : Buckets) (change : ℤ)
    → IsPaced rp b
    → let (rp', b', _) = expire now (rp, b, change) in IsPaced rp' b'
unfolding expire
expire-IsPaced now rp b change v =
    let threshold = (now + 2 ^ 32 - distribution) % 2 ^ 32 in
    let held = drop_expired-held threshold now (pos 0) (pos 0) b in
    let (p, asc) =
      drop_expired-Ascends threshold now 0 rp.pending_bucket_time (pos 0) (pos 0) b v.ascending
        (omega arith) in
    elim (Bool-cases (leb rp.oldest_bucket_time threshold)) [
      | inl e ↦ rw e (record {
        rate =
            expired_rate rp.current_rate_of_increase _ _ p
              (eq_of_parts _ _ (omega (int_laws, parts_eq _ _ held, parts_eq _ _ v.rate)));
        pending_nonneg = v.pending_nonneg;
        pending_time = v.pending_time;
        ascending = asc;
      })
      | inr e ↦ rw e v
    ]

cap_change-IsPaced :
    (rp : RexReturnPool) (b : Buckets) (change : ℤ)
    → IsPaced rp b
    → let (rp', b', _) = cap_change (rp, b, change) in IsPaced rp' b'
unfolding cap_change
cap_change-IsPaced rp b change v =
    elim (Bool-cases (ltb_ℤ (pos 0) change && ltb_ℤ rp.proceeds (pos 0))) [
      | inl e ↦ rw e (record {
        rate = v.rate;
        pending_nonneg = v.pending_nonneg;
        pending_time = v.pending_time;
        ascending = v.ascending;
      })
      | inr e ↦ rw e v
    ]

-- Where the rate of increase is the sum of the rates of the buckets, the pending proceeds are not
-- negative, and the buckets ascend and stand before the pending one, a distribution before the end of
-- the 32-bit clock keeps all this.
pub distribute-IsPaced :
    (now : ℕ) (rp : RexReturnPool) (b : Buckets)
    → now < end_of_days
    → IsPaced rp b
    → let (rp', b', _) = distribute now rp b in IsPaced rp' b'
unfolding distribute take_due
distribute-IsPaced now rp b lt v =
    let change = rp.current_rate_of_increase *ℤ pos (get_elapsed_intervals now rp.last_dist_time) in
    let (rp1, b1, c1) = start_pending now (rp, b, change) in
    let v1 = start_pending-IsPaced now rp b change lt v in
    let v2 : IsPaced (record rp1 { proceeds = rp1.proceeds -ℤ c1; last_dist_time = now }) b1 =
      record {
        rate = v1.rate;
        pending_nonneg = v1.pending_nonneg;
        pending_time = v1.pending_time;
        ascending = v1.ascending;
      } in
    let rp2 = record rp1 { proceeds = rp1.proceeds -ℤ c1; last_dist_time = now } in
    let (rp3, b3, c3) = expire now (rp2, b1, c1) in
    cap_change-IsPaced rp3 b3 c3 (expire-IsPaced now rp2 b1 c1 v2)
