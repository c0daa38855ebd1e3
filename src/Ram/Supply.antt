-- ===== src/Ram/Supply.antt =====
-- The bytes of the memory market, contracts/eosio.system/src/delegate_bandwidth.cpp and eosio.system.cpp.
use eosio_system.Base.{
  ℕ, ◌+◌, ◌-◌, ◌*◌, ◌%◌, ◌^◌, ◌≤◌, ◌<◌, ◌≡◌, ◌≢◌, ◌∙◌, refl, sym, inl, inr, some, arith, leb,
  Bool-cases, ok, check, >>=-eq-ok, >>-eq-ok,
}
use eosio_system.Base.Int.{
  ℤ, pos, pos_part, ◌+ℤ◌, ◌-ℤ◌, ◌≤ℤ◌, ◌<ℤ◌, ltb_ℤ, leb_ℤ, int_laws, parts_eq, eq_of_parts, eq_pos,
}
use eosio_system.Host.{Host, Symbol, Asset, asset, add_amount, HasAssets}
use eosio_system.State.{ExchangeState, RamTables}
use eosio_system.Market.{direct_convert, direct_convert_base, direct_convert_quote}
use eosio_system.Ram.{ram_symbol, add_ram, update_ram_supply, take_ram, give_ram}
use native.Mathlib.Nat.{mod-eq_of_lt}

-- What the market has for sale and what is reserved is all memory, none of it counted past the end.
pub record IsSupplied (core : Symbol) (r : RamTables) : Type 0 where
  pub market : ExchangeState
  pub stored : r.rammarket ≡ some market
  pub supply : market.base.amount +ℤ pos r.total_ram_bytes_reserved ≡ pos r.max_ram_size
  pub base : market.base.symbol ≡ ram_symbol
  pub quote : market.quote.symbol ≡ core
  pub fits : r.max_ram_size < 2 ^ 64
  pub counted : r.total_ram_bytes_reserved < 2 ^ 64

ok_eq : {A : Type 0} (a b : A) → ok b ≡ ok a → a ≡ b
ok_eq a b h = cc

-- More memory for the market and in all.
add_ram-IsSupplied :
    (symbol : Symbol) (more : ℕ) (r r' : RamTables)
    → IsSupplied symbol r
    → r.max_ram_size + more < 2 ^ 64
    → add_ram (pos more) ((r.max_ram_size + more) % 2 ^ 64) r ≡ ok r'
    → IsSupplied symbol r'
unfolding add_ram
add_ram-IsSupplied symbol more r r' v room h =
    let m = v.market in
    let base' = add_amount m.base (pos more) in
    let max : (r.max_ram_size + more) % 2 ^ 64 ≡ r.max_ram_size + more = mod-eq_of_lt room in
    let same : r' ≡ record r {
      rammarket = some (record m { base = base' });
      max_ram_size = r.max_ram_size + more;
    } =
      ground (arith, h, v.stored, max) in
    rw same (record {
      market = record m { base = base' };
      stored = refl;
      supply = eq_of_parts _ _ (omega (int_laws, parts_eq _ _ v.supply));
      base = v.base;
      quote = v.quote;
      fits = room;
      counted = v.counted;
    })

module _ (host : Host) where
  open host use {F, slot, core_symbol}

  -- Where the bytes that the memory market has and the bytes reserved make all memory, and that is at
  -- most 2^64 - 2^32 bytes, the growth of the supply, when it does not abort, keeps this.
  pub update_ram_supply-IsSupplied :
      (r r' : RamTables)
      → IsSupplied core_symbol r
      → r.max_ram_size + 2 ^ 32 ≤ 2 ^ 64
      → update_ram_supply host r ≡ ok r'
      → IsSupplied core_symbol r'
  unfolding update_ram_supply
  update_ram_supply-IsSupplied r r' v room h = elim (Bool-cases (leb slot r.last_ram_increase)) [
    | inl early ↦ rw (ok_eq r' r (rw early at h)) v
    | inr due ↦
        let more = (slot + 2 ^ 32 - r.last_ram_increase) * r.new_ram_per_block % 2 ^ 32 in
        let small : more < 2 ^ 32 = omega arith in
        let (r1, e, h1) =
          >>=-eq-ok (add_ram (pos more) ((r.max_ram_size + more) % 2 ^ 64) r) _ (rw due at h) in
        let v1 = add_ram-IsSupplied core_symbol more r r1 v (omega arith) e in
        rw (ok_eq r' (record r1 { last_ram_increase = slot }) h1) (record {
          market = v1.market;
          stored = v1.stored;
          supply = v1.supply;
          base = v1.base;
          quote = v1.quote;
          fits = v1.fits;
          counted = v1.counted;
        })
  ]

  module _ (laws : HasAssets host) (apart : core_symbol ≢ ram_symbol) where
    -- Where the bytes that the memory market has and the bytes reserved make all memory, and core
    -- tokens are not memory, a purchase for core tokens that does not abort, of at most the bytes that
    -- the market has, keeps that. The bytes sold are added to those reserved without a wrap, the
    -- payment is added to the stake, and the total stays.
    pub take_ram-IsSupplied :
        (payment : Asset) (r : RamTables) (out : ℤ × RamTables)
        → (v : IsSupplied core_symbol r) → payment.symbol ≡ core_symbol
        → take_ram host payment r ≡ ok out
        → out.0 ≤ℤ v.market.base.amount
        → IsSupplied core_symbol out.1
          × (pos (out.1).total_ram_bytes_reserved ≡ pos r.total_ram_bytes_reserved +ℤ out.0)
          × ((out.1).max_ram_size ≡ r.max_ram_size)
          × ((out.1).total_ram_stake ≡ r.total_ram_stake +ℤ payment.amount)
    unfolding take_ram
    take_ram-IsSupplied payment r out v sym h covered =
        let m = v.market in
        let h0 = rw v.stored at h in
        let ((paid, m'), e1, h1) = >>=-eq-ok (direct_convert host payment ram_symbol m) _ h0 in
        let (positive, h2) = >>-eq-ok (check (ltb_ℤ (pos 0) paid.amount) _) _ h1 in
        let ne : m.base.symbol ≢ m.quote.symbol = ground (arith, v.base, v.quote, apart) in
        let of_quote : payment.symbol ≡ m.quote.symbol = ground (arith, sym, v.quote) in
        let (quote, base, nonneg, base_symbol, quote_symbol, _, _) =
          direct_convert_quote host laws payment ram_symbol m m' paid ne of_quote e1 in
        let whole = parts_eq _ _ (eq_pos paid.amount nonneg) in
        let left : paid.amount ≤ℤ m.base.amount = ground (arith, h2, covered) in
        let more : r.total_ram_bytes_reserved + pos_part paid.amount < 2 ^ 64 =
          omega (int_laws, parts_eq _ _ v.supply, left, whole, v.fits) in
        let kept : (r.total_ram_bytes_reserved + pos_part paid.amount) % 2 ^ 64
            ≡ r.total_ram_bytes_reserved + pos_part paid.amount =
          mod-eq_of_lt more in
        let r' = record r {
          rammarket = some m';
          total_ram_bytes_reserved = r.total_ram_bytes_reserved + pos_part paid.amount;
          total_ram_stake = r.total_ram_stake +ℤ payment.amount;
        } in
        let same : out ≡ (paid.amount, r') = ok_eq out _ (rw kept at h2) in
        let sum_up : pos (r.total_ram_bytes_reserved + pos_part paid.amount)
            ≡ pos r.total_ram_bytes_reserved +ℤ paid.amount =
          eq_of_parts _ _ (omega (int_laws, whole)) in
        rw same (
          record {
            market = m';
            stored = refl;
            supply =
                eq_of_parts _ _
                  (omega (int_laws, parts_eq _ _ v.supply, parts_eq _ _ base, parts_eq _ _ sum_up));
            base = base_symbol ∙ v.base;
            quote = quote_symbol ∙ v.quote;
            fits = v.fits;
            counted = more;
          },
          sum_up,
          refl,
          refl,
        )

    -- Where the bytes that the memory market has and the bytes reserved make all memory, and core
    -- tokens are not memory, a sale that does not abort, of at most the bytes that are reserved, keeps
    -- that. The bytes are taken from those reserved without a wrap, the tokens paid out, more than 1,
    -- are taken from the stake, which is not negative after it, and the total stays.
    pub give_ram-IsSupplied :
        (n : ℕ) (r : RamTables) (out : ℤ × RamTables)
        → IsSupplied core_symbol r
        → n ≤ r.total_ram_bytes_reserved
        → give_ram host (pos n) r ≡ ok out
        → IsSupplied core_symbol out.1
          × ((out.1).total_ram_bytes_reserved + n ≡ r.total_ram_bytes_reserved)
          × ((out.1).max_ram_size ≡ r.max_ram_size)
          × ((out.1).total_ram_stake ≡ r.total_ram_stake -ℤ out.0)
          × (pos 1 <ℤ out.0)
          × (pos 0 ≤ℤ (out.1).total_ram_stake)
    unfolding give_ram
    give_ram-IsSupplied n r out v held h =
        let m = v.market in
        let h0 = rw v.stored at h in
        let ((paid, m'), e1, h1) =
          >>=-eq-ok (direct_convert host (asset (pos n) ram_symbol) core_symbol m) _ h0 in
        let (enough, h2) = >>-eq-ok (check (ltb_ℤ (pos 1) paid.amount) _) _ h1 in
        let stake = r.total_ram_stake -ℤ paid.amount in
        let (nonneg, h3) = >>-eq-ok (check (leb_ℤ (pos 0) stake) _) _ h2 in
        let ne : m.base.symbol ≢ m.quote.symbol = ground (arith, v.base, v.quote, apart) in
        let (base, quote, _, base_symbol, quote_symbol, _, _) =
          direct_convert_base host laws (asset (pos n) ram_symbol) core_symbol m m' paid ne
            (sym v.base) e1 in
        let all = parts_eq _ _ v.supply in
        let kept : (r.total_ram_bytes_reserved + 2 ^ 64 - n) % 2 ^ 64
            ≡ r.total_ram_bytes_reserved - n =
          omega (arith, v.counted) in
        let r' = record r {
          rammarket = some m';
          total_ram_bytes_reserved = r.total_ram_bytes_reserved - n;
          total_ram_stake = stake;
        } in
        let same : out ≡ (paid.amount, r') = ok_eq out _ (rw kept at h3) in
        let back : pos (r.total_ram_bytes_reserved - n) ≡ pos r.total_ram_bytes_reserved -ℤ pos n =
          eq_of_parts _ _ (omega int_laws) in
        rw same (
          record {
            market = m';
            stored = refl;
            supply = eq_of_parts _ _ (omega (int_laws, all, parts_eq _ _ base, parts_eq _ _ back));
            base = base_symbol ∙ v.base;
            quote = quote_symbol ∙ v.quote;
            fits = v.fits;
            counted = omega arith;
          },
          omega arith,
          refl,
          refl,
          ground (arith, enough),
          ground (arith, nonneg),
        )
