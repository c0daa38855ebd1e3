-- ===== src/Rex/Price.antt =====
-- The price of REX: what buying and selling do to the REX pool, contracts/eosio.system/src/rex.cpp.
use eosio_system.Base.{
  ℕ, ◌+◌, ◌-◌, ◌*◌, ◌/◌, ◌%◌, ◌^◌, ◌≤◌, ◌<◌, ◌≡◌, ◌⊎◌, refl, ap, inl, inr, true, false, arith, leb,
  ◌==◌, Bool-cases, ok,
}
use eosio_system.Base.Int.{
  ℤ, pos, ◌+ℤ◌, ◌-ℤ◌, ◌≤ℤ◌, ◌<ℤ◌, int_laws, +ℤ_pos, -ℤ_pos, i64_small, u128_small,
}
use eosio_system.Host.{Host, Asset, sub_amount, set_amount}
use eosio_system.State.{RexPool, RexBalance}
use native.Mathlib.Nat.{mul-le-mul, mod-eq_of_lt}
use eosio_system.Rex.Pool.{in_asset_range, mul_div, grow_rex_pool, fill_rex_order, RexOrderOutcome}

-- What is lendable is lent or not.
abbrev pub IsSplit : RexPool → Type 0
IsSplit p = p.total_lendable.amount ≡ p.total_unlent.amount +ℤ p.total_lent.amount

product_fits : (a b : ℕ) → a < 2 ^ 63 → b < 2 ^ 63 → a * b < 2 ^ 128
product_fits a b ha hb =
    let ha' : a ≤ 2 ^ 63 - 1 = omega arith in
    let hb' : b ≤ 2 ^ 63 - 1 = omega arith in
    let le : a * b ≤ (2 ^ 63 - 1) * (2 ^ 63 - 1) = mul-le-mul ha' hb' in omega arith

-- On amounts within range whose quotient fits, `mul_div` is exact.
pub mul_div_exact :
    (a b c : ℕ)
    → a < 2 ^ 63
    → b < 2 ^ 63
    → c < 2 ^ 63
    → 0 < c
    → a * b / c < 2 ^ 63
    → mul_div (pos a) (pos b) (pos c) ≡ ok (pos (a * b / c))
unfolding mul_div
mul_div_exact a b c ha hb hc pc fits =
    let product : a * b % 2 ^ 128 ≡ a * b = mod-eq_of_lt (product_fits a b ha hb) in
    let not_zero : (c == 0) ≡ false = ground arith in
    rw
      (
        u128_small a (omega arith),
        u128_small b (omega arith),
        u128_small c (omega arith),
        product,
        i64_small (a * b / c) fits,
      )
      (ground (arith, not_zero))

-- The market of REX in numbers: what is bought for `a` at `s` to `r`, rounded down.
rounded_price :
    (s a r r' : ℕ)
    → 0 < s
    → r' ≡ (s + a) * r / s
    → (r ≤ r') × (s * r' ≤ (s + a) * r) × ((s + a) * r < s * (r' + 1))
rounded_price s a r r' ps e = grind arith

-- Buying REX for `a` in a pool with `s` lendable for `r` REX, of which `l` is lent, with 0 < s, l at
-- most s + a, and amounts within int64, succeeds. It gives the largest amount of REX that does not
-- lower the value of a REX: the new value is at least the old one, and would be less than the old one
-- with one more unit of REX.
pub grow_rex_pool_price :
    (host : Host) (payment : Asset) (p : RexPool) (a s r l : ℕ)
    → payment.amount ≡ pos a
    → p.total_lendable.amount ≡ pos s
    → p.total_rex.amount ≡ pos r
    → p.total_lent.amount ≡ pos l
    → 0 < s
    → l ≤ s + a
    → s + a < 2 ^ 63
    → r < 2 ^ 63
    → (s + a) * r / s < 2 ^ 63
    → (q : ℤ × RexPool) × (r' : ℕ) × (grow_rex_pool host payment p ≡ ok q)
      × (q.1.total_rex.amount ≡ pos r')
      × (q.0 ≡ pos (r' - r))
      × (r ≤ r')
      × (s * r' ≤ (s + a) * r)
      × ((s + a) * r < s * (r' + 1))
      × (q.1.total_lendable.amount ≡ pos (s + a))
      × (q.1.total_unlent.amount ≡ pos (s + a - l))
      × (q.1.total_lent ≡ p.total_lent)
unfolding grow_rex_pool
grow_rex_pool_price host payment p a s r l ea es er el ps fits bs br out =
    let r' = (s + a) * r / s in
    let (up, down, least) = rounded_price s a r r' ps refl in
    let p' = record p {
      total_lendable = set_amount p.total_lendable (pos (s + a));
      total_rex = set_amount p.total_rex (pos r');
      total_unlent = set_amount p.total_unlent (pos (s + a - l));
    } in
    let same : grow_rex_pool host payment p ≡ ok (pos (r' - r), p') = ground (
      arith,
      mul_div_exact (s + a) r s bs br (omega arith) ps out,
      +ℤ_pos s a,
      -ℤ_pos (s + a) l fits,
      -ℤ_pos r' r up,
    ) in
    ((pos (r' - r), p'), r', same, refl, refl, up, down, least, refl, refl, refl)

rounded_value :
    (n s r : ℕ)
    → 0 < r
    → n ≤ r
    → (n * s / r ≤ s) × (n * s / r * r ≤ n * s) × (n * s < (n * s / r + 1) * r)
rounded_value n s r pr le = grind arith

left_parts : (n k v m : ℕ) → v * (n + k) ≤ n * (v + m) → (v + m) * k ≤ m * (n + k)
left_parts n k v m h = omega arith

left_value : (n s r v : ℕ) → n ≤ r → v ≤ s → v * r ≤ n * s → s * (r - n) ≤ (s - v) * r
left_value n s r v le lv h =
    let er : r ≡ n + (r - n) = omega arith in
    let es : s ≡ v + (s - v) = omega arith in
    let h' : v * (n + (r - n)) ≤ n * (v + (s - v)) = rw (← er, ← es) h in
    let out = left_parts n (r - n) v (s - v) h' in
    omega (arith, out, ap (λ (t : ℕ). t * (r - n)) es, ap (λ (t : ℕ). (s - v) * t) er)

-- What `fill_rex_order` returns for `n` REX of value `v`, where `l` of `s` is lent and `u` is not: the
-- outcome, the balance and the pool.
abbrev pub Filled :
    ℕ → ℕ → ℕ → ℕ → ℕ → RexBalance → RexPool → RexOrderOutcome × RexBalance × RexPool → Type 0
Filled n v s r l rb p (o, rb', p') =
    (o.success ≡ true)
    × (o.proceeds ≡ pos v)
    × (p'.total_rex.amount ≡ pos (r - n))
    × (p'.total_lendable.amount ≡ pos (s - v))
    × (p'.total_unlent.amount ≡ pos (s - v - l))
    × (l / 10 ≤ s - v - l)
    × (p'.total_lent ≡ p.total_lent)
    × (s * (r - n) ≤ (s - v) * r)
    × (rb'.rex_balance.amount ≡ rb.rex_balance.amount -ℤ pos n)
    × (rb'.matured_rex ≡ rb.matured_rex -ℤ pos n)
    × (rb'.rex_maturities ≡ rb.rex_maturities)

-- Selling `n` REX out of a balance of `b`, at most the `r` REX of a pool with `s` lendable, of which
-- `l` is lent and `u` is not, with `s` below 2^62 and `r` within int64, does not abort. The value of
-- the REX is rounded down. If a tenth of what is lent stays unlent, the order is filled: the seller
-- gets the value and a REX of those that stay is worth no less. If not, nothing changes.
pub fill_rex_order_price :
    (rb : RexBalance) (p : RexPool) (n b s r l u : ℕ)
    → p.total_lendable.amount ≡ pos s
    → p.total_rex.amount ≡ pos r
    → p.total_lent.amount ≡ pos l
    → p.total_unlent.amount ≡ pos u
    → rb.rex_balance.amount ≡ pos b
    → s ≡ u + l
    → n ≤ b
    → b ≤ r
    → 0 < r
    → s < 2 ^ 62
    → r < 2 ^ 63
    → (q : RexOrderOutcome × RexBalance × RexPool) × (v : ℕ) × (fill_rex_order (pos n) rb p ≡ ok q)
      × (v * r ≤ n * s)
      × (n * s < (v + 1) * r)
      × ((v + l / 10 ≤ u) × Filled n v s r l rb p q
          ⊎ (u < v + l / 10)
            × (q.0.success ≡ false)
            × (q.0.proceeds ≡ pos 0)
            × (q.1 ≡ rb)
            × (q.2 ≡ p))
unfolding fill_rex_order in_asset_range
fill_rex_order_price rb p n b s r l u es er el eu eb split nb br pr bs brx =
    let v = n * s / r in
    let cur = b * s / r in
    let (vs, lo, hi) = rounded_value n s r pr (omega arith) in
    let (cs, _, _) = rounded_value b s r pr br in
    let ev = mul_div_exact n s r (omega arith) (omega arith) brx pr (omega arith) in
    let ec = mul_div_exact b s r (omega arith) (omega arith) brx pr (omega arith) in
    elim (Bool-cases (leb (v + l / 10) u)) [
      | inl e ↦
          let within : v + l / 10 ≤ u = ground arith in
          let e' : pos v ≤ℤ pos u -ℤ pos (l / 10) = omega int_laws in
          (
            (
              record {
                success = true;
                proceeds = pos v;
                stake_change = pos cur -ℤ pos v -ℤ rb.vote_stake.amount;
              },
              record rb {
                vote_stake = set_amount rb.vote_stake (pos cur -ℤ pos v);
                rex_balance = sub_amount rb.rex_balance (pos n);
                matured_rex = rb.matured_rex -ℤ pos n;
              },
              record p {
                total_rex = set_amount p.total_rex (pos (r - n));
                total_lendable = set_amount p.total_lendable (pos (s - v));
                total_unlent = set_amount p.total_unlent (pos (s - v - l));
              },
            ),
            v,
            ground (
              arith,
              ev,
              ec,
              e',
              -ℤ_pos r n (omega arith),
              -ℤ_pos s v vs,
              -ℤ_pos (s - v) l (omega arith),
            ),
            lo,
            hi,
            inl (
              within,
              (
                refl,
                refl,
                refl,
                refl,
                refl,
                omega arith,
                refl,
                left_value n s r v (omega arith) vs lo,
                refl,
                refl,
                refl,
              ),
            ),
          )
      | inr e ↦
          let beyond : u < v + l / 10 = ground arith in
          let e' : pos u -ℤ pos (l / 10) <ℤ pos v = omega int_laws in
          (
            (record { success = false; proceeds = pos 0; stake_change = pos 0 }, rb, p),
            v,
            ground (arith, ev, ec, e'),
            lo,
            hi,
            inr (beyond, refl, refl, refl, refl),
          )
    ]
