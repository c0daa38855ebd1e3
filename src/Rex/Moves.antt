-- ===== src/Rex/Moves.antt =====
-- Moving REX between the buckets of a balance: `move_to_savings`, `move_from_savings` and the last part of
-- `add_to_rex_balance`, contracts/eosio.system/src/rex.cpp.
use eosio_system.Base.{ℕ, zero, suc, ◌+◌, ◌<◌, ◌≡◌, refl, inl, inr, [], ◌∷◌, arith, Bool-cases, ok}
use eosio_system.Base.Int.{
  ℤ, pos, negsuc, ◌+ℤ◌, ◌-ℤ◌, ◌≤ℤ◌, eqb_ℤ, int_laws, parts_eq, eq_of_parts, sub_zero, sub_add,
  eqb_refl, leb_true,
}
use eosio_system.Host.{Host, Asset, add_amount, now_sec, end_of_days}
use eosio_system.State.{Buckets, RexBalance}
use eosio_system.Rex.Buckets.{
  mature, add_back, take_savings, take_back, get_rex_maturity, put_rex_savings, settle,
  move_to_savings, move_from_savings, add_maturing,
}
use eosio_system.Rex.Savings.{
  held_in, Ascends, mature-held, mature-Ascends, take_savings-held, add_back-held, add_back-Ascends,
  take_savings-add_back, take_back-IsTaking, IsTaking, Ascends-raise, mature-grows,
  take_savings_none,
}

abbrev pub savings : RexBalance → ℤ
savings rb = (take_savings rb.rex_maturities).0

-- Every REX of the balance is mature, in a bucket that matures in order, or in savings.
pub record IsSound (host : Host) (rb : RexBalance) : Type 0 where
  pub balanced : rb.rex_balance.amount ≡ rb.matured_rex +ℤ held_in rb.rex_maturities
  pub matured_nonneg : pos 0 ≤ℤ rb.matured_rex
  pub savings_nonneg : pos 0 ≤ℤ savings rb
  pub ascending : Ascends 0 (get_rex_maturity host + 1) (take_savings rb.rex_maturities).1

-- Savings that are put on buckets without any are what is read again, and all else is kept.
pub put_rex_savings_lem :
    (x : ℤ) (rb : RexBalance)
    → Ascends 0 end_of_days rb.rex_maturities
    → let out = put_rex_savings x rb in
      (take_savings out.rex_maturities ≡ (x, rb.rex_maturities))
      × (held_in out.rex_maturities ≡ held_in rb.rex_maturities +ℤ x)
      × (out.matured_rex ≡ rb.matured_rex)
      × (out.rex_balance ≡ rb.rex_balance)
      × (out.vote_stake ≡ rb.vote_stake)
unfolding put_rex_savings
put_rex_savings_lem x rb early = elim (Bool-cases (eqb_ℤ x (pos 0))) [
  | inl e ↦
      let z : x ≡ pos 0 = ground (arith, e) in
      rw (e, z) (take_savings_none 0 rb.rex_maturities early, omega int_laws, refl, refl, refl)
  | inr e ↦ rw e (
    take_savings-add_back 0 x rb.rex_maturities early,
    add_back-held end_of_days x rb.rex_maturities,
    refl,
    refl,
    refl,
  )
]

pub put_rex_savings-rex_balance :
    (x : ℤ) (rb : RexBalance) → (put_rex_savings x rb).rex_balance ≡ rb.rex_balance
unfolding put_rex_savings
put_rex_savings-rex_balance x rb = ground arith

pub put_rex_savings-matured_rex :
    (x : ℤ) (rb : RexBalance) → (put_rex_savings x rb).matured_rex ≡ rb.matured_rex
unfolding put_rex_savings
put_rex_savings-matured_rex x rb = ground arith

module _ (host : Host) (in_time : get_rex_maturity host < end_of_days) where
  pub put_rex_savings-IsSound :
      (x : ℤ) (rb : RexBalance)
      → pos 0 ≤ℤ x
      → Ascends 0 (get_rex_maturity host + 1) rb.rex_maturities
      → pos 0 ≤ℤ rb.matured_rex
      → rb.rex_balance.amount ≡ rb.matured_rex +ℤ held_in rb.rex_maturities +ℤ x
      → IsSound host (put_rex_savings x rb) × (savings (put_rex_savings x rb) ≡ x)
  put_rex_savings-IsSound x rb p asc mat bal =
      let early =
        Ascends-raise 0 (get_rex_maturity host + 1) end_of_days rb.rex_maturities (omega arith)
          asc in
      let (read, held, m, bal', _) = put_rex_savings_lem x rb early in
      (
        record {
          balanced = rw (bal', m, held) (grind (int_laws, bal));
          matured_nonneg = rw m mat;
          savings_nonneg = rw (read, savings) p;
          ascending = rw read asc;
        },
        rw (read, savings) refl,
      )

  -- `process_rex_maturities` after the savings are taken out.
  pub mature_rest :
      (rb : RexBalance)
      → IsSound host rb
      → let rest = (take_savings rb.rex_maturities).1 in
        let (m, b) = mature (now_sec host) rb.matured_rex rest in
        (m +ℤ held_in b +ℤ savings rb ≡ rb.rex_balance.amount)
        × (pos 0 ≤ℤ m)
        × Ascends 0 (get_rex_maturity host + 1) b
  mature_rest rb v =
      let rest = (take_savings rb.rex_maturities).1 in
      let hi = get_rex_maturity host + 1 in
      (
        grind (
          int_laws,
          v.balanced,
          mature-held (now_sec host) rb.matured_rex rest,
          take_savings-held rb.rex_maturities,
        ),
        omega (
          arith,
          v.matured_nonneg,
          mature-grows (now_sec host) 0 hi rb.matured_rex rest v.ascending,
        ),
        mature-Ascends (now_sec host) 0 hi rb.matured_rex rest v.ascending,
      )

  -- With enough REX the checks of `settle` pass, and it puts the savings up by the amount.
  settle_lem :
      (n : ℕ) (order saved left held : ℤ) (r : Buckets) (rb : RexBalance)
      → pos 0 ≤ℤ order
      → pos 0 ≤ℤ saved
      → pos n +ℤ order +ℤ saved ≤ℤ rb.rex_balance.amount
      → rb.matured_rex +ℤ held +ℤ saved ≡ rb.rex_balance.amount
      → pos 0 ≤ℤ rb.matured_rex
      → IsTaking n 0 (get_rex_maturity host + 1) held (left, r)
      → (rb' : RexBalance) × (settle (pos n) order saved (left, r) rb ≡ ok rb')
        × IsSound host rb'
        × (savings rb' ≡ saved +ℤ pos n)
        × (rb'.rex_balance ≡ rb.rex_balance)
  unfolding settle held_in
  settle_lem n order saved (negsuc l) held r rb po ps fits bal pm t = absurd (omega (arith, t.1))
  settle_lem n order saved (pos zero) held r rb po ps fits bal pm t =
      let rb1 = record rb { rex_maturities = r } in
      let (sound, read) =
        put_rex_savings-IsSound (saved +ℤ pos n) rb1 (omega int_laws) t.3 pm
          (eq_of_parts _ _ (omega (int_laws, parts_eq _ _ bal, parts_eq _ _ t.0))) in
      (
        put_rex_savings (saved +ℤ pos n) rb1,
        rw (sub_zero, eqb_refl) refl,
        sound,
        read,
        put_rex_savings-rex_balance (saved +ℤ pos n) rb1,
      )
  settle_lem n order saved (pos (suc l)) held (e ∷ r) rb po ps fits bal pm t =
      absurd (ground (arith, t.2))
  settle_lem n order saved (pos (suc l)) held [] rb po ps fits bal pm t =
      let left = pos (suc l) in
      let rb1 = record rb { matured_rex = rb.matured_rex -ℤ left; rex_maturities = [] } in
      let moved : pos 0 +ℤ pos n ≡ held +ℤ left = t.0 in
      let covered : order ≤ℤ rb.matured_rex -ℤ left =
        omega (int_laws, parts_eq _ _ bal, parts_eq _ _ moved) in
      let (sound, read) =
        put_rex_savings-IsSound (saved +ℤ pos n) rb1 (omega int_laws) tt
          (omega (arith, covered, po))
          (eq_of_parts _ _ (omega (int_laws, parts_eq _ _ bal, parts_eq _ _ moved))) in
      (
        put_rex_savings (saved +ℤ pos n) rb1,
        ground (arith, covered, sub_add (pos n) left),
        sound,
        read,
        put_rex_savings-rex_balance (saved +ℤ pos n) rb1,
      )

  -- Before the last days of the 32-bit clock, `move_to_savings` on a sound balance, of an amount that with
  -- what is scheduled for sale and what is in savings is at most the balance, returns: its internal
  -- checks never fail. The amount is added to the savings, the balance stays, and the row stays sound.
  pub move_to_savings_moves :
      (n : ℕ) (order : ℤ) (rb : RexBalance)
      → IsSound host rb
      → pos 0 ≤ℤ order
      → pos n +ℤ order +ℤ savings rb ≤ℤ rb.rex_balance.amount
      → (rb' : RexBalance) × (move_to_savings host (pos n) order rb ≡ ok rb')
        × IsSound host rb'
        × (savings rb' ≡ savings rb +ℤ pos n)
        × (rb'.rex_balance ≡ rb.rex_balance)
  unfolding move_to_savings
  move_to_savings_moves n order rb v po fits =
      let rest = (take_savings rb.rex_maturities).1 in
      let (m, b) = mature (now_sec host) rb.matured_rex rest in
      let (bal, pm, asc) = mature_rest rb v in
      let rb2 = record rb { matured_rex = m; rex_maturities = b } in
      let (left, r) = take_back (pos n) b in
      rw (leb_true (pos n +ℤ order +ℤ savings rb) rb.rex_balance.amount fits) (
        settle_lem n order (savings rb) left (held_in b) r rb2 po v.savings_nonneg fits bal pm
          (take_back-IsTaking n 0 (get_rex_maturity host + 1) b asc))

  -- Before the last days of the 32-bit clock, `move_from_savings` on a sound balance, of an amount that is
  -- in savings, returns: the amount is taken out of the savings, the balance stays, and the row stays
  -- sound.
  pub move_from_savings_moves :
      (n : ℕ) (rb : RexBalance)
      → IsSound host rb
      → pos n ≤ℤ savings rb
      → (rb' : RexBalance) × (move_from_savings host (pos n) rb ≡ ok rb')
        × IsSound host rb'
        × (savings rb' +ℤ pos n ≡ savings rb)
        × (rb'.rex_balance ≡ rb.rex_balance)
  unfolding move_from_savings
  move_from_savings_moves n rb v fits =
      let rest = (take_savings rb.rex_maturities).1 in
      let (m, b) = mature (now_sec host) rb.matured_rex rest in
      let (bal, pm, asc) = mature_rest rb v in
      let t = get_rex_maturity host in
      let rb2 = record rb { matured_rex = m; rex_maturities = add_back t (pos n) b } in
      let x = savings rb -ℤ pos n in
      let (sound, read) =
        put_rex_savings-IsSound x rb2 (omega int_laws)
          (add_back-Ascends 0 t (t + 1) (pos n) b asc (omega arith) (omega arith) (omega arith)) pm
          (rw (add_back-held t (pos n) b) (eq_of_parts _ _ (omega (int_laws, parts_eq _ _ bal)))) in
      (
        put_rex_savings x rb2,
        rw (leb_true (pos n) (savings rb) fits) refl,
        sound,
        rw read (sub_add (savings rb) (pos n)),
        put_rex_savings-rex_balance x rb2,
      )

  -- Before the last days of the 32-bit clock, when a sound row is credited with `x` at least 0 REX,
  -- putting the new REX into the bucket of the current maturity makes the row sound again, and its
  -- savings stay.
  pub add_maturing-IsSound :
      (x : ℤ) (rb : RexBalance) (stake : Asset)
      → IsSound host rb
      → pos 0 ≤ℤ x
      → let rb1 = record rb { rex_balance = add_amount rb.rex_balance x; vote_stake = stake } in
        IsSound host (add_maturing host x rb1) × (savings (add_maturing host x rb1) ≡ savings rb)
  unfolding add_maturing
  add_maturing-IsSound x rb stake v p =
      let rest = (take_savings rb.rex_maturities).1 in
      let (m, b) = mature (now_sec host) rb.matured_rex rest in
      let (bal, pm, asc) = mature_rest rb v in
      let t = get_rex_maturity host in
      put_rex_savings-IsSound (savings rb)
        (record rb {
          rex_balance = add_amount rb.rex_balance x;
          vote_stake = stake;
          matured_rex = m;
          rex_maturities = add_back t x b;
        })
        v.savings_nonneg (add_back-Ascends 0 t (t + 1) x b asc (omega arith) (omega arith) p) pm
        (rw (add_back-held t x b) (eq_of_parts _ _ (omega (int_laws, parts_eq _ _ bal))))
