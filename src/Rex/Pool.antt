-- ===== src/Rex/Pool.antt =====
-- The REX pool: buying and selling REX, contracts/eosio.system/src/rex.cpp, `add_to_rex_pool` and
-- `fill_rex_order`. Values are tables, an abort is an `err`.
use eosio_system.Base.{
  ltb, ◌+◌, ◌*◌, ◌/◌, ◌%◌, ◌^◌, Bool, true, false, Option, none, some, ◌==◌, if◌then◌else◌, Result,
  ok, err, ◌>>=◌, ◌>>◌, check, require,
}
use eosio_system.Base.Int.{
  ℤ, pos, pos_part, neg_part, ◌+ℤ◌, ◌-ℤ◌, ◌*ℤ◌, ltb_ℤ, leb_ℤ, quot, u128, i64,
}
use eosio_system.Host.{Host, Symbol, Asset, asset, sub_amount, set_amount, core}
use eosio_system.State.{RexPool, RexBalance, RexTables}

abbrev pub rex_symbol : Symbol
rex_symbol = 0x5845_5204

-- `_rexpool.begin()` where it is dereferenced.
abbrev pub the_pool : RexTables → Result RexPool
the_pool t = require t.rexpool "cannot increment end iterator"

-- `rex_system_initialized` and `rex_available`
abbrev pub rex_system_initialized : RexTables → Bool
rex_system_initialized t = elim t.rexpool [ none ↦ false | some p ↦ true ]

abbrev pub rex_available : RexTables → Bool
rex_available t = elim t.rexpool [ none ↦ false | some p ↦ ltb_ℤ (pos 0) p.total_rex.amount ]

-- `( uint128_t(a) * b ) / c`, converted to `int64_t`; a division by zero is a trap.
unfoldable pub mul_div : ℤ → ℤ → ℤ → Result ℤ
mul_div a b c =
    if u128 c == 0 then err "divide by zero" else ok (i64 (u128 a * u128 b % 2 ^ 128 / u128 c))

module _ (host : Host) where
  open host use {asset_sub}

  abbrev init_total_rent : Asset
  init_total_rent = core host (pos 200000000)

  -- The three branches of `add_to_rex_pool`: a new pool, an empty pool, and any other.
  unfoldable pub new_rex_pool : Asset → Result (ℤ × RexPool)
  new_rex_pool payment = do
    let received = payment.amount *ℤ pos 10000
    unlent ← asset_sub payment (core host (pos 0))
    ok (
      received,
      record {
        total_lent = core host (pos 0);
        total_unlent = unlent;
        total_rent = init_total_rent;
        total_lendable = payment;
        total_rex = asset received rex_symbol;
        namebid_proceeds = core host (pos 0);
        loan_num = 0;
      },
    )

  unfoldable pub refill_rex_pool : Asset → RexPool → ℤ × RexPool
  refill_rex_pool payment p =
      let received = payment.amount *ℤ pos 10000 in
      (
        received,
        record p {
          total_lendable = set_amount p.total_lendable payment.amount;
          total_lent = set_amount p.total_lent (pos 0);
          total_unlent = set_amount p.total_unlent (payment.amount -ℤ pos 0);
          total_rent = set_amount p.total_rent init_total_rent.amount;
          total_rex = set_amount p.total_rex received;
        },
      )

  unfoldable pub grow_rex_pool : Asset → RexPool → Result (ℤ × RexPool)
  unfolding mul_div
  grow_rex_pool payment p = do
    check (ltb_ℤ (pos 0) p.total_lendable.amount) "lendable REX pool is empty"
    let S0 = p.total_lendable.amount
    let S1 = S0 +ℤ payment.amount
    let R0 = p.total_rex.amount
    R1 ← mul_div S1 R0 S0
    let unlent = S1 -ℤ p.total_lent.amount
    check (leb_ℤ (pos 0) unlent) "programmer error, this should never go negative"
    ok (
      R1 -ℤ R0,
      record p {
        total_lendable = set_amount p.total_lendable S1;
        total_rex = set_amount p.total_rex R1;
        total_unlent = set_amount p.total_unlent unlent;
      },
    )

  -- The REX received, and the pool.
  unfoldable pub add_to_rex_pool : Asset → Option RexPool → Result (ℤ × RexPool)
  unfolding new_rex_pool refill_rex_pool grow_rex_pool
  add_to_rex_pool payment none = new_rex_pool payment
  add_to_rex_pool payment (some p) =
      if ltb_ℤ (pos 0) p.total_rex.amount
      then grow_rex_pool payment p
      else ok (refill_rex_pool payment p)

-- `rex_order_outcome`
pub record RexOrderOutcome : Type 0 where
  pub success : Bool
  pub proceeds : ℤ
  pub stake_change : ℤ

-- The end of `fill_rex_order`, once the proceeds and the value of the balance are known.
unfoldable pub fill_outcome :
    ℤ → ℤ → ℤ → RexBalance → RexPool → RexOrderOutcome × RexBalance × RexPool
fill_outcome proceeds current_stake_value rex rb p =
    let R1 = p.total_rex.amount -ℤ rex in
    let S1 = p.total_lendable.amount -ℤ proceeds in
    let unlent_lower_bound = quot p.total_lent.amount 10 in
    let available_unlent = p.total_unlent.amount -ℤ unlent_lower_bound in
    let vote_stake = current_stake_value -ℤ proceeds in
    if leb_ℤ proceeds available_unlent
    then (
      record {
        success = true;
        proceeds = proceeds;
        stake_change = vote_stake -ℤ rb.vote_stake.amount;
      },
      record rb {
        vote_stake = set_amount rb.vote_stake vote_stake;
        rex_balance = sub_amount rb.rex_balance rex;
        matured_rex = rb.matured_rex -ℤ rex;
      },
      record p {
        total_rex = set_amount p.total_rex R1;
        total_lendable = set_amount p.total_lendable S1;
        total_unlent = set_amount p.total_unlent (S1 -ℤ p.total_lent.amount);
      },
    )
    else (record { success = false; proceeds = pos 0; stake_change = pos 0 }, rb, p)

-- The range that the constructor of `asset` checks, below 2^62.
unfoldable pub in_asset_range : ℤ → Bool
in_asset_range amount = ltb (pos_part amount + neg_part amount) (2 ^ 62)

-- `fill_rex_order` on the pool and the balance of the seller. The value of the balance is computed on
-- both outcomes; it divides by the same number as the proceeds.
unfoldable pub fill_rex_order :
    ℤ → RexBalance → RexPool → Result (RexOrderOutcome × RexBalance × RexPool)
unfolding fill_outcome in_asset_range
fill_rex_order rex rb p = do
  let S0 = p.total_lendable.amount
  let R0 = p.total_rex.amount
  proceeds ← mul_div rex S0 R0
  check (in_asset_range proceeds) "magnitude of asset amount must be less than 2^62"
  current_stake_value ← mul_div rb.rex_balance.amount S0 R0
  ok (fill_outcome proceeds current_stake_value rex rb p)
