-- ===== src/Rex/Upkeep.antt =====
-- The books over the maintenance of the exchange, contracts/eosio.system/src/rex.cpp, `runrex`.
use eosio_system.Base.{
  if◌then◌else◌, sym, taken, not_taken, ℕ, zero, suc, ◌≡◌, refl, inl, inr, false, some, [], ◌∷◌,
  arith, ltb, Bool-cases, Option-cases, ok, ◌>>=◌, check, >>=-eq-ok, >>-eq-ok,
}
use eosio_system.Base.Int.{pos, ltb_ℤ}
use eosio_system.Host.{Host, Name, Asset, set_amount, Sent, HasAssets, rex_account, names_account}
use eosio_system.State.{RexTables, State, send, RexPool, RexBalance, RexLoan, RexOrder}
use eosio_system.Table.{Table, find, put, sorted, begin, begin-find}
use eosio_system.Resources.{update_resource_limits_frame}
use eosio_system.Rex.Pool.{
  the_pool, rex_system_initialized, rex_available, fill_rex_order, RexOrderOutcome,
}
use eosio_system.Rex.Returns.{update_rex_pool, add_to_rex_return_pool}
use eosio_system.Rex.Loans.{process_expired_loan, by_time}
use eosio_system.Rex.Lent.{
  process_expired_loan-Lends, update_rex_pool-Lends, add_to_rex_return_pool-Lends,
}
use eosio_system.Rex.Account.{set_rex, channel_to_rex}
use eosio_system.Rex.Run.{
  Kind, loans_of, set_loans, store_loan, net_delta, cpu_delta, run_loan, run_loans, expiry,
  store_filled, run_order, run_orders, channel_namebids, runrex,
}
use eosio_system.Rex.Books.{
  IsBooked, ok_same, Lends-zero-IsBooked, Sold, fill_rex_order-Sold, store_loan-IsBooked,
  sold-IsBooked,
}

abbrev no_proceeds : RexPool → RexPool
no_proceeds p = record p { namebid_proceeds = set_amount p.namebid_proceeds (pos 0) }

module _ (host : Host) (laws : HasAssets host) where
  open host use {F, now}

  run_loan-IsBooked :
      (k : Kind) (num : ℕ) (loan : RexLoan) (s s' : State F)
      → find num (loans_of k s.rex) ≡ some loan
      → IsBooked s.rex
      → run_loan host k num loan s ≡ ok s'
      → IsBooked s'.rex
  unfolding run_loan
  run_loan-IsBooked k num loan s s' e b h =
      let ((delta, after, t), r, h1) = >>=-eq-ok (process_expired_loan host loan s.rex) _ h in
      let (l, d) =
        process_expired_loan-Lends host laws loan b.pool s.rex t delta after b.stored r in
      let t' = set_loans k (store_loan num after (loans_of k t)) t in
      let same : s'.rex ≡ t' = ground (
        arith,
        h1,
        update_resource_limits_frame host loan.from loan.receiver (net_delta k delta)
            (cpu_delta k delta) (set_rex t' s) s',
      ) in
      rw same (store_loan-IsBooked k num loan after delta s.rex t b e l d)

  run_loans-IsBooked :
      (k : Kind) (n : ℕ) (s s' : State F)
      → IsBooked s.rex
      → run_loans host k n s ≡ ok s'
      → IsBooked s'.rex
  unfolding run_loans
  run_loans-IsBooked k zero s s' b h = rw (ok_same s' s h) b
  run_loans-IsBooked k (suc n) s s' b h = elim (Option-cases (begin expiry (loans_of k s.rex))) [
    | inl e ↦ rw (ok_same s' s (ground (arith, h, e))) b
    | inr ((num, loan), e) ↦ elim (Bool-cases (ltb now loan.expiration)) [
      | inl later ↦ rw (ok_same s' s (ground (arith, h, e, later))) b
      | inr due ↦
          let h1 : (run_loan host k num loan s >>= (λ s1. run_loans host k n s1)) ≡ ok s' =
            ground (arith, h, e, due) in
          let (s1, e1, h2) = >>=-eq-ok (run_loan host k num loan s) _ h1 in
          run_loans-IsBooked k n s1 s'
            (run_loan-IsBooked k num loan s s1 (begin-find expiry (loans_of k s.rex) num loan e) b
              e1)
            h2
    ]
  ]

  -- Storing a filled order.
  store_filled-IsBooked :
      (owner : Name) (order : RexOrder) (rb : RexBalance) (s : State F)
      (out : RexOrderOutcome × RexBalance × RexPool)
      → (b : IsBooked s.rex) → find owner s.rex.rexbalance ≡ some rb
      → Sold rb b.pool out
      → IsBooked (store_filled host owner order out s).rex
  unfolding store_filled
  store_filled-IsBooked owner order rb s (o, rb', p') b e sold = elim (Bool-cases o.success) [
    | inl filled ↦
        let orders =
          put owner
            (record order {
              proceeds = set_amount order.proceeds o.proceeds;
              stake_change = set_amount order.stake_change o.stake_change;
              is_open = false;
            })
            s.rex.rexorders in
        rw filled (sold-IsBooked owner rb rb' p' orders s.rex b e sold.0 sold.1 sold.2)
    | inr failed ↦ rw failed b
  ]

  run_order-IsBooked :
      (owner : Name) (order : RexOrder) (s s' : State F)
      → IsBooked s.rex
      → run_order host owner order s ≡ ok s'
      → IsBooked s'.rex
  unfolding run_order
  run_order-IsBooked owner order s s' b h = elim (Option-cases (find owner s.rex.rexbalance)) [
    | inl e ↦ rw (ok_same s' s (ground (arith, h, e))) b
    | inr (rb, e) ↦
        let h1 : (fill_rex_order order.rex_requested.amount rb b.pool
              >>= (λ out. ok (store_filled host owner order out s)))
            ≡ ok s' =
          ground (arith, h, e, b.stored) in
        let (out, e1, h2) = >>=-eq-ok (fill_rex_order order.rex_requested.amount rb b.pool) _ h1 in
        rw (ok_same _ _ h2) (
          store_filled-IsBooked owner order rb s out b e
            (fill_rex_order-Sold order.rex_requested.amount rb b.pool out b.split e1))
  ]

  run_orders-IsBooked :
      (n : ℕ) (orders : Table RexOrder) (s s' : State F)
      → IsBooked s.rex
      → run_orders host n orders s ≡ ok s'
      → IsBooked s'.rex
  unfolding run_orders
  run_orders-IsBooked n [] s s' b h = rw (ok_same s' s h) b
  run_orders-IsBooked zero (r ∷ rest) s s' b h = rw (ok_same s' s h) b
  run_orders-IsBooked (suc n) ((owner, order) ∷ rest) s s' b h = elim (Bool-cases order.is_open) [
    | inl opened ↦
        let h1 : (run_order host owner order s >>= (λ s1. run_orders host n rest s1)) ≡ ok s' =
          ground (arith, h, opened) in
        let (s1, e1, h2) = >>=-eq-ok (run_order host owner order s) _ h1 in
        run_orders-IsBooked n rest s1 s' (run_order-IsBooked owner order s s1 b e1) h2
    | inr filled ↦ rw (ok_same s' s (ground (arith, h, filled))) b
  ]

  pub channel_to_rex-IsBooked :
      (from : Name) (amount : Asset) (s s' : State F)
      → IsBooked s.rex
      → channel_to_rex host from amount s ≡ ok s'
      → IsBooked s'.rex
  unfolding channel_to_rex
  channel_to_rex-IsBooked from amount s s' b h =
      let moved = λ (t : RexTables). send (Sent.transfer from rex_account amount) (set_rex t s) in
      let (t, e1, h1) =
        >>=-eq-ok
          (if rex_available s.rex then add_to_rex_return_pool host amount s.rex else ok s.rex) _
          h in
      elim (Bool-cases (rex_available s.rex)) [
        | inl open_rex ↦
            let e2 =
              taken (rex_available s.rex) (add_to_rex_return_pool host amount s.rex) _ _ open_rex
                e1 in
            let l =
              add_to_rex_return_pool-Lends host laws amount b.pool s.rex t b.stored b.split e2 in
            rw (sym (taken (rex_available s.rex) (moved t) s s' open_rex (sym (ok_same s' _ h1))))
              (Lends-zero-IsBooked s.rex t b l)
        | inr closed ↦
            rw (sym (not_taken (rex_available s.rex) (moved t) s s' closed (sym (ok_same s' _ h1))))
              b
      ]

  channel_namebids-IsBooked :
      (s s' : State F) → IsBooked s.rex → channel_namebids host s ≡ ok s' → IsBooked s'.rex
  unfolding channel_namebids
  channel_namebids-IsBooked s s' b h =
      elim (Bool-cases (ltb_ℤ (pos 0) b.pool.namebid_proceeds.amount)) [
        | inr nothing ↦ rw (ok_same s' s (ground (arith, h, b.stored, nothing))) b
        | inl fees ↦
            let h0 : (channel_to_rex host names_account b.pool.namebid_proceeds s >>= (λ s1.
              the_pool s1.rex
              >>= (λ p1. ok (set_rex (record s1.rex { rexpool = some (no_proceeds p1) }) s1))))
                ≡ ok s' =
              ground (arith, h, b.stored, fees) in
            let (s1, e1, h1) =
              >>=-eq-ok (channel_to_rex host names_account b.pool.namebid_proceeds s) _ h0 in
            let b1 = channel_to_rex-IsBooked names_account b.pool.namebid_proceeds s s1 b e1 in
            let same : s' ≡ set_rex (record s1.rex { rexpool = some (no_proceeds b1.pool) }) s1 =
              ground (arith, h1, b1.stored) in
            rw same (record {
              pool = no_proceeds b1.pool;
              stored = refl;
              split = b1.split;
              lent = b1.lent;
              rex = b1.rex;
            })
      ]

  -- The maintenance `runrex`, for any limit on its loops, keeps the books of the exchange when it does
  -- not abort: what is lendable is what is unlent and what is lent, what the pool has lent is what all
  -- open CPU and NET loans have staked, and the REX of the pool is the REX of all accounts.
  pub runrex-IsBooked :
      (max : ℕ) (s s' : State F) → IsBooked s.rex → runrex host max s ≡ ok s' → IsBooked s'.rex
  unfolding runrex
  runrex-IsBooked max s s' b h =
      let (_, h0) =
        >>-eq-ok (check (rex_system_initialized s.rex) "rex system not initialized yet") _ h in
      let (t, e1, h1) = >>=-eq-ok (update_rex_pool host s.rex) _ h0 in
      let l = update_rex_pool-Lends host laws b.pool s.rex t b.stored b.split e1 in
      let b1 = Lends-zero-IsBooked s.rex t b l in
      let (s1, e2, h2) = >>=-eq-ok (channel_namebids host (set_rex t s)) _ h1 in
      let (s2, e3, h3) = >>=-eq-ok (run_loans host Kind.cpu max s1) _ h2 in
      let (s3, e4, h4) = >>=-eq-ok (run_loans host Kind.net max s2) _ h3 in
      run_orders-IsBooked max (sorted by_time s3.rex.rexorders) s3 s'
        (run_loans-IsBooked Kind.net max s2 s3
          (run_loans-IsBooked Kind.cpu max s1 s2 (channel_namebids-IsBooked (set_rex t s) s1 b1 e2)
            e3)
          e4)
        h4
