-- ===== src/Pay/Inflation.antt =====
-- The split of new tokens, contracts/eosio.system/src/producer_pay.cpp: `claimrewards`.
use eosio_system.Base.{ℕ, ◌*◌, ◌/◌, ◌%◌, ◌^◌, ◌≤◌, ◌<◌, ◌≡◌, refl, arith}
use eosio_system.Base.Int.{pos, ◌+ℤ◌, ◌≤ℤ◌, int_laws, i64_small, u128_small}
use eosio_system.Pay.{pay_factor_precision, part_of, split_inflation}

rounded_part :
    (a factor : ℕ) → pay_factor_precision ≤ factor → a * pay_factor_precision / factor ≤ a
rounded_part a factor h = grind arith

within_128 : (a : ℕ) → a < 2 ^ 63 → a * pay_factor_precision % 2 ^ 128 ≡ a * pay_factor_precision
within_128 a h = omega (arith, h)

-- A factor of at least one gives a part of the whole, rounded down.
part_of_small :
    (a factor : ℕ)
    → a < 2 ^ 63
    → pay_factor_precision ≤ factor
    → factor < 2 ^ 63
    → part_of (pos a) (pos factor) ≡ pos (a * pay_factor_precision / factor)
unfolding part_of
part_of_small a factor ha hf small =
    let part = rounded_part a factor hf in
    rw
      (
        u128_small a (omega (arith, ha)),
        u128_small factor (omega (arith, small)),
        within_128 a ha,
        i64_small (a * pay_factor_precision / factor) (omega (arith, ha, part)),
      )
      refl

-- For new tokens within int64 and factors from 10000 up within int64, the split of inflation gives
-- every token to savings, to blocks or to votes, nothing negative to any of them, producers get the
-- tokens times 10000 over the first factor, and blocks get of that part the share by the second
-- factor, each rounded down.
pub split_inflation_sum :
    (n inflation_pay_factor votepay_factor : ℕ)
    → n < 2 ^ 63
    → pay_factor_precision ≤ inflation_pay_factor
    → inflation_pay_factor < 2 ^ 63
    → pay_factor_precision ≤ votepay_factor
    → votepay_factor < 2 ^ 63
    → (let p = split_inflation (pos n) (pos inflation_pay_factor) (pos votepay_factor) in
        (p.to_savings +ℤ (p.to_per_block_pay +ℤ p.to_per_vote_pay) ≡ pos n)
        × (p.to_per_block_pay +ℤ p.to_per_vote_pay
            ≡ pos (n * pay_factor_precision / inflation_pay_factor))
        × (p.to_per_block_pay
            ≡ pos (
                n * pay_factor_precision / inflation_pay_factor * pay_factor_precision
                / votepay_factor))
        × (pos 0 ≤ℤ p.to_savings)
        × (pos 0 ≤ℤ p.to_per_block_pay)
        × (pos 0 ≤ℤ p.to_per_vote_pay))
unfolding split_inflation
split_inflation_sum n f v hn hf sf hv sv =
    let producers = n * pay_factor_precision / f in
    let fits = rounded_part n f hf in
    let block_fits = rounded_part producers v hv in
    let small : producers < 2 ^ 63 = omega (arith, fits, hn) in
    rw (part_of_small n f hn hf sf, part_of_small producers v small hv sv)
      (
        omega (int_laws, fits, block_fits),
        omega int_laws,
        refl,
        omega (int_laws, fits),
        omega arith,
        omega (int_laws, block_fits),
      )
