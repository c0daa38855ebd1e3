-- ===== src/Rex/Consolidation.antt =====
-- The buckets of a balance put into one, contracts/eosio.system/src/rex.cpp, `consolidate_rex_balance`.
use eosio_system.Base.{ℕ, zero, suc, ◌+◌, ◌<◌, ◌≡◌, refl, [], ◌∷◌, arith, if◌then◌else◌}
use eosio_system.Base.Int.{ℤ, pos, negsuc, ◌+ℤ◌, ◌-ℤ◌, ◌≤ℤ◌, ltb_ℤ, int_laws, parts_eq, eq_of_parts}
use eosio_system.Host.{Host, Asset, end_of_days}
use eosio_system.State.{Buckets, RexBalance}
use eosio_system.Rex.Buckets.{take_savings, total_of, get_rex_maturity, consolidate_rex_balance}
use eosio_system.Rex.Savings.{held_in, Ascends, take_savings-held, total_of-held}
use eosio_system.Rex.Moves.{
  savings, IsSound, put_rex_savings-rex_balance, put_rex_savings-matured_rex,
  put_rex_savings-IsSound,
}

module _ (host : Host) (in_time : get_rex_maturity host < end_of_days) where
  -- The bucket that `consolidate_rex_balance` makes.
  one_bucket :
      (t : ℕ) (total : ℤ)
      → pos 0 ≤ℤ total
      → let b : Buckets = if ltb_ℤ (pos 0) total then (t, total) ∷ [] else [] in
        (held_in b ≡ total) × Ascends 0 (t + 1) b
  unfolding held_in
  one_bucket t (pos zero) p = (refl, tt)
  one_bucket t (pos (suc k)) p = grind int_laws
  one_bucket t (negsuc k) p = absurd (omega arith)

  -- Before the last days of the 32-bit clock, consolidating a sound balance with `order` REX scheduled
  -- for sale, which with the savings is at most the balance, leaves a sound row with `order` mature
  -- and the same savings and balance.
  pub consolidate_rex_balance_lem :
      (order : Asset) (rb : RexBalance)
      → IsSound host rb
      → pos 0 ≤ℤ order.amount
      → order.amount +ℤ savings rb ≤ℤ rb.rex_balance.amount
      → let out = consolidate_rex_balance host order rb in
        IsSound host out
        × (savings out ≡ savings rb)
        × (out.matured_rex ≡ order.amount)
        × (out.rex_balance ≡ rb.rex_balance)
  unfolding consolidate_rex_balance
  consolidate_rex_balance_lem order rb v po fits =
      let rest = (take_savings rb.rex_maturities).1 in
      let t = get_rex_maturity host in
      let total = total_of (rb.matured_rex -ℤ order.amount) rest in
      let all : total ≡ rb.matured_rex -ℤ order.amount +ℤ held_in rest =
        total_of-held (rb.matured_rex -ℤ order.amount) rest in
      let saved = take_savings-held rb.rex_maturities in
      let (held, asc) =
        one_bucket t total
          (omega (int_laws, parts_eq _ _ all, parts_eq _ _ saved, parts_eq _ _ v.balanced)) in
      let rb1 = record rb {
        matured_rex = order.amount;
        rex_maturities = if ltb_ℤ (pos 0) total then (t, total) ∷ [] else [];
      } in
      let (sound, read) =
        put_rex_savings-IsSound host in_time (savings rb) rb1 v.savings_nonneg asc po (
          rw held (
            eq_of_parts _ _
              (omega (int_laws, parts_eq _ _ all, parts_eq _ _ saved, parts_eq _ _ v.balanced)))) in
      (
        sound,
        read,
        put_rex_savings-matured_rex (savings rb) rb1,
        put_rex_savings-rex_balance (savings rb) rb1,
      )
