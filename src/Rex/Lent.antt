-- ===== src/Rex/Lent.antt =====
-- What is lent and what is staked by loans: contracts/eosio.system/src/rex.cpp, from
-- `add_loan_to_rex_pool` to `runrex`.
use eosio_system.Base.{
  ◌+◌, ◌%◌, ◌^◌, ◌≡◌, ◌⊎◌, ◌∙◌, refl, inl, inr, Bool, false, Option, none, some, arith, leb,
  if◌then◌else◌, Bool-cases, Option-cases, ok, >>=-eq-ok, Result-cases,
}
use eosio_system.Base.Int.{ℤ, pos, ◌+ℤ◌, ◌-ℤ◌, neg_ℤ, int_laws, parts_eq, eq_of_parts}
use eosio_system.Host.{Host, Asset, add_amount, sub_amount, HasAssets}
use eosio_system.State.{RexPool, RexLoan, RexTables}
use eosio_system.Market.{get_bancor_output}
use eosio_system.Rex.Price.{IsSplit}
use eosio_system.Rex.Returns.{update_rex_pool, add_to_rex_return_pool, effective_time}
use eosio_system.Rex.Flow.{update_rex_pool_pays, update_rex_pool_early, update_rex_pool-none}
use eosio_system.Rex.Loans.{
  add_loan_to_rex_pool, remove_loan_from_rex_pool, process_expired_loan, renew_loan, close_loan,
  update_renewed_loan,
}

-- The tables that a step on the pool leaves alone.
abbrev pub SameRows : RexTables → RexTables → Type 0
SameRows t t' =
    (t'.rexbalance ≡ t.rexbalance)
    × (t'.rexorders ≡ t.rexorders)
    × (t'.cpu_loans ≡ t.cpu_loans)
    × (t'.net_loans ≡ t.net_loans)

-- A step from `t` with the pool `p` keeps the split of the pool and its REX, and changes what is lent by
-- `delta`.
pub record Lends (t t' : RexTables) (p : RexPool) (delta : ℤ) : Type 0 where
  pub pool : RexPool
  pub stored : t'.rexpool ≡ some pool
  pub split : IsSplit pool
  pub lent : pool.total_lent.amount ≡ p.total_lent.amount +ℤ delta
  pub rex : pool.total_rex ≡ p.total_rex
  pub rows : SameRows t t'

Lends-self :
    (p : RexPool) (t t' : RexTables)
    → t.rexpool ≡ some p
    → IsSplit p
    → t' ≡ t
    → Lends t t' p (pos 0)
Lends-self p t t' ep v e = record {
  pool = p;
  stored = ground (arith, e, ep);
  split = v;
  lent = omega int_laws;
  rex = refl;
  rows = ground (arith, e);
}

-- What a loan that may be gone has staked.
abbrev pub staked : Option RexLoan → ℤ
staked none = pos 0
staked (some l) = l.total_staked.amount

module _ (host : Host) (laws : HasAssets host) where
  pub update_rex_pool-Lends :
      (p : RexPool) (t t' : RexTables)
      → t.rexpool ≡ some p
      → IsSplit p
      → update_rex_pool host t ≡ ok t'
      → Lends t t' p (pos 0)
  update_rex_pool-Lends p t t' ep v h = elim (Option-cases t.rexretpool) [
    | inl e ↦ Lends-self p t t' ep v (ground (arith, update_rex_pool-none host t e))
    | inr (rp, e) ↦ elim (Bool-cases (leb (effective_time host) rp.last_dist_time)) [
      | inl early ↦ Lends-self p t t' ep v (ground (arith, update_rex_pool_early host t rp e early))
      | inr due ↦
          let (p', et, _, _, split, lent, rex, _) =
            update_rex_pool_pays host laws p rp t t' ep e (ground arith) v h in
          record {
            pool = p';
            stored = ground (arith, et);
            split = split;
            lent = rw lent (omega int_laws);
            rex = rex;
            rows = ground (arith, et);
          }
    ]
  ]

  -- A fee changes only the return pool after that.
  pub add_to_rex_return_pool-Lends :
      (fee : Asset) (p : RexPool) (t t' : RexTables)
      → t.rexpool ≡ some p
      → IsSplit p
      → add_to_rex_return_pool host fee t ≡ ok t'
      → Lends t t' p (pos 0)
  unfolding add_to_rex_return_pool
  add_to_rex_return_pool-Lends fee p t t' ep v h =
      let (t1, e1, h1) = >>=-eq-ok (update_rex_pool host t) _ h in
      let l = update_rex_pool-Lends p t t1 ep v e1 in
      let same : (t'.rexpool ≡ t1.rexpool) × SameRows t1 t' = ground (arith, h1) in
      let rows = l.rows in
      record {
        pool = l.pool;
        stored = ground (arith, same, l.stored);
        split = l.split;
        lent = l.lent;
        rex = l.rex;
        rows = ground (arith, same, rows);
      }

  pub add_loan_to_rex_pool-Lends :
      (payment : Asset) (rented : ℤ) (new_loan : Bool) (p : RexPool) (t t' : RexTables)
      → t.rexpool ≡ some p
      → IsSplit p
      → add_loan_to_rex_pool host payment rented new_loan t ≡ ok t'
      → Lends t t' p rented
  unfolding add_loan_to_rex_pool
  add_loan_to_rex_pool-Lends payment rented new_loan p t t' ep v h =
      let (t1, e1, h1) = >>=-eq-ok (add_to_rex_return_pool host payment t) _ h in
      let l = add_to_rex_return_pool-Lends payment p t t1 ep v e1 in
      let q = l.pool in
      let q' = record q {
        total_rent = add_amount q.total_rent payment.amount;
        total_unlent = sub_amount q.total_unlent rented;
        total_lent = add_amount q.total_lent rented;
        loan_num = if new_loan then (q.loan_num + 1) % 2 ^ 64 else q.loan_num;
      } in
      let stored : t'.rexpool ≡ some q' = ground (arith, h1, l.stored) in
      record {
        pool = q';
        stored = stored;
        split = eq_of_parts _ _ (omega (int_laws, parts_eq _ _ l.split));
        lent = eq_of_parts _ _ (omega (int_laws, parts_eq _ _ l.lent));
        rex = l.rex;
        rows = ground (arith, h1, l.stored, l.rows);
      }

  -- Taking a loan out keeps the split, whatever it was, and what is lendable.
  remove_loan_from_rex_pool-IsSplit :
      (loan : RexLoan) (p : RexPool)
      → let p' = remove_loan_from_rex_pool host loan p in
        IsSplit p'
        × (p'.total_lent.amount ≡ p.total_lent.amount -ℤ loan.total_staked.amount)
        × (p'.total_rex ≡ p.total_rex)
  unfolding remove_loan_from_rex_pool
  remove_loan_from_rex_pool-IsSplit loan p = (refl, refl, refl)

  renew_loan-Lends :
      (loan : RexLoan) (rented : ℤ) (q : RexPool) (t t' : RexTables) (delta : ℤ)
      (after : Option RexLoan)
      → t.rexpool ≡ some q
      → IsSplit q
      → renew_loan host loan rented t ≡ ok (delta, after, t')
      → Lends t t' q rented × (delta ≡ rented -ℤ loan.total_staked.amount) × (staked after ≡ rented)
  unfolding renew_loan update_renewed_loan
  renew_loan-Lends loan rented q t t' delta after eq v h =
      let (t1, e1, h1) = >>=-eq-ok (add_loan_to_rex_pool host loan.payment rented false t) _ h in
      let same : t1 ≡ t' = ground (arith, h1) in
      let added = add_loan_to_rex_pool-Lends loan.payment rented false q t t' eq v in
      (added (rw same at e1), ground (arith, h1), ground (arith, h1))

  close_loan-Lends :
      (loan : RexLoan) (t t' : RexTables) (delta : ℤ) (after : Option RexLoan)
      → close_loan host loan t ≡ ok (delta, after, t')
      → (t'.rexpool ≡ t.rexpool)
        × SameRows t t'
        × (delta ≡ neg_ℤ loan.total_staked.amount)
        × (after ≡ none)
  unfolding close_loan
  close_loan-Lends loan t t' delta after h = ground arith

  -- The step that process_expired_loan takes, in its two outcomes.
  process_expired_loan_cases :
      (loan : RexLoan) (p : RexPool) (t : RexTables) (out : ℤ × Option RexLoan × RexTables)
      → t.rexpool ≡ some p
      → process_expired_loan host loan t ≡ ok out
      → let q = remove_loan_from_rex_pool host loan p in
        let t1 : RexTables = record t { rexpool = some q } in
        let rented =
          get_bancor_output host q.total_rent.amount q.total_unlent.amount loan.payment.amount in
        (renew_loan host loan rented t1 ≡ ok out) ⊎ (close_loan host loan t1 ≡ ok out)
  unfolding process_expired_loan
  process_expired_loan_cases loan p t out ep h =
      elim (Result-cases (host.asset_le loan.payment loan.balance)) [
        | inl (m, r) ↦ absurd (ground (arith, ep, r))
        | inr (funded, r) ↦ ground (arith, ep, r)
      ]

  -- When an expired loan is processed without an abort, renewed or closed, the change of its stake
  -- that is passed on to the receiver is the change of what the loan has staked and the change of what
  -- the pool has lent. The lendable tokens are then those unlent and those lent, and the REX of the
  -- pool, the balances, orders and loans stay.
  pub process_expired_loan-Lends :
      (loan : RexLoan) (p : RexPool) (t t' : RexTables) (delta : ℤ) (after : Option RexLoan)
      → t.rexpool ≡ some p
      → process_expired_loan host loan t ≡ ok (delta, after, t')
      → (Lends t t' p delta) × (staked after ≡ loan.total_staked.amount +ℤ delta)
  process_expired_loan-Lends loan p t t' delta after ep h =
      let q = remove_loan_from_rex_pool host loan p in
      let t1 : RexTables = record t { rexpool = some q } in
      let rented =
        get_bancor_output host q.total_rent.amount q.total_unlent.amount loan.payment.amount in
      let (split, lent, rex) = remove_loan_from_rex_pool-IsSplit loan p in
      elim (process_expired_loan_cases loan p t (delta, after, t') ep h) [
        | inl e ↦
            let (l, ed, ea) = renew_loan-Lends loan rented q t1 t' delta after refl split e in
            (
              record {
                pool = l.pool;
                stored = l.stored;
                split = l.split;
                lent =
                    eq_of_parts _ _
                      (omega (int_laws, parts_eq _ _ l.lent, parts_eq _ _ lent, parts_eq _ _ ed));
                rex = l.rex ∙ rex;
                rows = l.rows;
              },
              rw (ea, ed) (omega int_laws),
            )
        | inr e ↦
            let (same, rows, ed, ea) = close_loan-Lends loan t1 t' delta after e in
            (
              record {
                pool = q;
                stored = same;
                split = split;
                lent = eq_of_parts _ _ (omega (int_laws, parts_eq _ _ lent, parts_eq _ _ ed));
                rex = rex;
                rows = rows;
              },
              rw (ea, ed) (omega int_laws),
            )
      ]
