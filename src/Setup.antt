-- ===== src/Setup.antt =====
-- The start of the contract and its settings of inflation, contracts/eosio.system/src/eosio.system.cpp: `init`,
-- `setinflation` and `updtrevision`.
pub mod Start
use eosio_system.Base.{
  ℕ, zero, suc, ◌+◌, ◌-◌, ◌*◌, ◌/◌, ◌%◌, ◌^◌, ◌≤◌, ◌<◌, ◌≡◌, ◌≢◌, ◌↔◌, ◌⊎◌, ◌∙◌, refl, sym, ap, inl,
  inr, Bool, true, false, not, ◌&&◌, ◌||◌, Option, none, some, List, [], ◌∷◌, ◌++◌, arith, ltb, leb,
  ◌==◌, if◌then◌else◌, Bool-cases, Option-cases, Result, ok, err, ◌>>=◌, ◌>>◌, check, require,
  >>=-eq-ok, >>-eq-ok, check-eq-ok, Result-cases, length, All, String,
}
use eosio_system.Base.Int.{
  ℤ, pos, negsuc, pos_part, neg_part, sub_ℕ, ◌+ℤ◌, ◌-ℤ◌, ◌*ℤ◌, neg_ℤ, ◌≤ℤ◌, ◌<ℤ◌, ltb_ℤ, leb_ℤ,
  eqb_ℤ, min_ℤ, max_ℤ, abs_ℤ, quot, rem, u128, i64, int_laws, parts_eq, +ℤ_parts, -ℤ_parts,
  eq_of_parts, sub_zero, sub_add, add_sub, eqb_refl, leb_true, +ℤ_pos, -ℤ_pos, i64_small,
  u128_small, eq_pos,
}
use eosio_system.Host.{
  Host, Name, is_set, Symbol, Asset, asset, add_amount, sub_amount, set_amount, Sent, Double,
  HasAssets, require_auth, now_sec, core, seconds_per_day, seconds_per_hour, seconds_per_year,
  useconds_per_day, useconds_per_year, blocks_per_day, end_of_days, rex_account, names_account,
  stake_account, ram_account, ramfee_account, saving_account, bpay_account, vpay_account,
  reserv_account, eosio, b1,
}
use eosio_system.State.{
  State, send, RexPool, RexReturnPool, Buckets, RexBalance, RexLoan, RexOrder, RexTables,
  UserResources, DelegatedBandwidth, RefundRequest, Limits, StakeTables, resources_empty,
  delegation_empty, refund_empty, VoterInfo, ProducerInfo, ProducerInfo2, VoteTables, PayTables,
  ExchangeState, RamTables, NameBid, NameTables,
}
use eosio_system.Table.{
  Table, find, put, erase, first, find-put, find-erase_ne, sorted, begin, begin-find,
}
use eosio_system.Table.Sum.{sum, amount_at, sum-put, sum-erase}
use eosio_system.Ram.{ram_symbol, set_ram}
use eosio_system.Pay.{pay_factor_precision, set_pay}

-- `symbol( symbol_code("RAMCORE"), 4 )`, by its raw code
abbrev pub ramcore_symbol : Symbol
ramcore_symbol = 0x4552_4f43_4d41_5204

-- `free_ram`, as an `int64_t`
unfoldable pub free_ram : RamTables → ℤ
free_ram r = i64 ((r.max_ram_size + 2 ^ 64 - r.total_ram_bytes_reserved) % 2 ^ 64)

-- The market that `init` creates.
unfoldable pub first_market : Asset → Symbol → RamTables → ExchangeState
unfolding free_ram
first_market token_supply core_token r = record {
  supply = asset (pos 100000000000000) ramcore_symbol;
  base = asset (free_ram r) ram_symbol;
  quote = asset (quot token_supply.amount 1000) core_token;
}

-- `inflation_precision`
abbrev pub inflation_precision : ℕ
inflation_precision = 100

module _ (host : Host) where
  open host use {F, self, of_int, fdiv}

  -- The supply of the token of the chain, which another contract tells, is an argument.
  unfoldable pub init : Asset → ℕ → Symbol → State F → Result (State F)
  unfolding first_market
  init token_supply version core_token s = do
    require_auth host self
    check (version == 0) "unsupported version for init action"
    check (elim s.ram.rammarket [ none ↦ true | some m ↦ false ])
        "system contract has already been initialized"
    check (token_supply.symbol == core_token)
        "specified core symbol does not exist (precision mismatch)"
    check (ltb_ℤ (pos 0) token_supply.amount) "system token supply must be greater than 0"
    ok (
        send (Sent.token_open rex_account core_token) (
          set_ram (record s.ram { rammarket = some (first_market token_supply core_token s.ram) })
            s))

  -- `log1p` of the `double` library is an argument.
  unfoldable pub get_continuous_rate : (F → F) → ℤ → F
  get_continuous_rate log1p annual_rate =
      log1p (fdiv (of_int annual_rate) (of_int (pos (100 * inflation_precision))))

  unfoldable pub setinflation : (F → F) → ℤ → ℤ → ℤ → State F → Result (State F)
  unfolding get_continuous_rate
  setinflation log1p annual_rate inflation_pay_factor votepay_factor s = do
    require_auth host self
    check (leb_ℤ (pos 0) annual_rate) "annual_rate can't be negative"
    check (leb_ℤ (pos pay_factor_precision) inflation_pay_factor)
        "inflation_pay_factor must not be less than 10000"
    check (leb_ℤ (pos pay_factor_precision) votepay_factor)
        "votepay_factor must not be less than 10000"
    ok (
        set_pay
          (record s.pay {
            continuous_rate = get_continuous_rate log1p annual_rate;
            inflation_pay_factor = inflation_pay_factor;
            votepay_factor = votepay_factor;
          })
          s)

  unfoldable pub updtrevision : ℕ → State F → Result (State F)
  updtrevision revision s = do
    require_auth host self
    check (ltb s.pay.revision 255) "can not increment revision"
    check (revision == s.pay.revision + 1) "can only increment revision by one"
    check (leb revision 1) "specified revision is not yet supported by the code"
    ok (set_pay (record s.pay { revision = revision }) s)
