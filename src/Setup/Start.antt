-- ===== src/Setup/Start.antt =====
-- What `init` and `setinflation` set up, contracts/eosio.system/src/eosio.system.cpp.
use eosio_system.Base.{
  ok_eq, ℕ, ◌-◌, ◌^◌, ◌≤◌, ◌<◌, ◌≡◌, refl, ap, Bool, true, false, none, some, arith, ◌==◌, ok,
  check, >>-eq-ok, check-eq-ok,
}
use eosio_system.Base.Int.{
  ℤ, pos, negsuc, pos_part, ◌≤ℤ◌, ◌<ℤ◌, ltb_ℤ, leb_ℤ, i64, int_laws, eq_of_parts, eq_pos, leb_ℤ→le,
}
use eosio_system.Host.{Host, Symbol, Asset, require_auth}
use eosio_system.State.{State, RamTables}
use eosio_system.Ram.Supply.{IsSupplied}
use eosio_system.Pay.{pay_factor_precision}
use eosio_system.Pay.Accounts.{IsFunded}
use eosio_system.Setup.{free_ram, first_market, init, setinflation}

free_ram_exact :
    (r : RamTables)
    → r.max_ram_size < 2 ^ 63
    → r.total_ram_bytes_reserved ≤ r.max_ram_size
    → free_ram r ≡ pos (r.max_ram_size - r.total_ram_bytes_reserved)
unfolding free_ram i64
free_ram_exact r small room = ground (arith, small, room)

-- A factor that `setinflation` accepts, as the natural number it is.
factor_range :
    (a : ℤ)
    → pos pay_factor_precision ≤ℤ a
    → a <ℤ pos (2 ^ 63)
    → (pay_factor_precision ≤ pos_part a) × (pos_part a < 2 ^ 63)
factor_range (pos n) least small = (omega (arith, least), omega (arith, small))
factor_range (negsuc n) least small = absurd (omega (arith, least))

module _ (host : Host) where
  open host use {F, self}

  -- The state after `init`: nothing but the market is new.
  started :
      (token_supply : Asset) (core_token : Symbol) (s s' : State F)
      → s'.ram ≡ record s.ram { rammarket = some (first_market token_supply core_token s.ram) }
      → s.ram.max_ram_size < 2 ^ 63
      → s.ram.total_ram_bytes_reserved ≤ s.ram.max_ram_size
      → IsSupplied core_token s'.ram
  unfolding first_market
  started token_supply core_token s s' result small room =
      let free = free_ram_exact s.ram small room in
      rw result (record {
        market = first_market token_supply core_token s.ram;
        stored = refl;
        supply = rw free (eq_of_parts _ _ (omega (int_laws, room)));
        base = refl;
        quote = refl;
        fits = omega (arith, small);
        counted = omega (arith, small, room);
      })

  -- The `init` that does not abort, of a contract that has reserved at most all its memory, less than
  -- 2^63 bytes, makes a market such that what it has for sale and what is reserved is all memory, in
  -- exchange for tokens of the chain.
  pub init-IsSupplied :
      (token_supply : Asset) (version : ℕ) (core_token : Symbol) (s s' : State F)
      → init host token_supply version core_token s ≡ ok s'
      → s.ram.max_ram_size < 2 ^ 63
      → s.ram.total_ram_bytes_reserved ≤ s.ram.max_ram_size
      → IsSupplied core_token s'.ram
  unfolding init
  init-IsSupplied token_supply version core_token s s' h small room =
      let (_, h1) = >>-eq-ok (require_auth host self) _ h in
      let (_, h2) = >>-eq-ok (check (version == 0) _) _ h1 in
      let (_, h3) =
        >>-eq-ok (check (elim s.ram.rammarket as (λ x. Bool) [ none ↦ true | some m ↦ false ]) _) _
          h2 in
      let (_, h4) = >>-eq-ok (check (token_supply.symbol == core_token) _) _ h3 in
      let (_, h5) = >>-eq-ok (check (ltb_ℤ (pos 0) token_supply.amount) _) _ h4 in
      started token_supply core_token s s' (ap (λ (x : State F). x.ram) (ok_eq _ _ h5)) small room

  -- A `setinflation` that does not abort, after the first revision, with factors of int64 and buckets
  -- that are not overdrawn, leaves the factors in the range for which pay is split, and the buckets
  -- not overdrawn.
  pub setinflation-IsFunded :
      (log1p : F → F) (annual_rate inflation_pay_factor votepay_factor : ℤ) (s s' : State F)
      → setinflation host log1p annual_rate inflation_pay_factor votepay_factor s ≡ ok s'
      → inflation_pay_factor <ℤ pos (2 ^ 63)
      → votepay_factor <ℤ pos (2 ^ 63)
      → pos 0 ≤ℤ s.pay.pervote_bucket
      → pos 0 ≤ℤ s.pay.perblock_bucket
      → 0 < s.pay.revision
      → IsFunded s'.pay
  unfolding setinflation
  setinflation-IsFunded log1p annual_rate a b s s' h small_a small_b votes blocks revised =
      let (_, h1) = >>-eq-ok (require_auth host self) _ h in
      let (_, h2) = >>-eq-ok (check (leb_ℤ (pos 0) annual_rate) _) _ h1 in
      let (ca, h3) = >>-eq-ok (check (leb_ℤ (pos pay_factor_precision) a) _) _ h2 in
      let (cb, h4) = >>-eq-ok (check (leb_ℤ (pos pay_factor_precision) b) _) _ h3 in
      let la =
        leb_ℤ→le (pos pay_factor_precision) a
          (check-eq-ok (leb_ℤ (pos pay_factor_precision) a) _ ca) in
      let lb =
        leb_ℤ→le (pos pay_factor_precision) b
          (check-eq-ok (leb_ℤ (pos pay_factor_precision) b) _ cb) in
      rw (ok_eq _ _ h4) (record {
        inflation = pos_part a;
        vote = pos_part b;
        inflation_factor = eq_pos a (omega (arith, la));
        vote_factor = eq_pos b (omega (arith, lb));
        inflation_range = factor_range a la small_a;
        vote_range = factor_range b lb small_b;
        votes_left = votes;
        blocks_left = blocks;
        revised = revised;
      })
