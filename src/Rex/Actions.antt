-- ===== src/Rex/Actions.antt =====
-- The actions of the resource exchange on funds, loans and savings, contracts/eosio.system/src/rex.cpp.
pub mod Trade
use eosio_system.Base.{
  ℕ, zero, suc, ◌+◌, ◌-◌, ◌*◌, ◌/◌, ◌%◌, ◌^◌, ◌≤◌, ◌<◌, ◌≡◌, ◌≢◌, ◌↔◌, ◌⊎◌, ◌∙◌, refl, sym, ap, inl,
  inr, Bool, true, false, not, ◌&&◌, ◌||◌, Option, none, some, List, [], ◌∷◌, ◌++◌, arith, ltb, leb,
  ◌==◌, if◌then◌else◌, Bool-cases, Option-cases, Result, ok, err, ◌>>=◌, ◌>>◌, check, require,
  >>=-eq-ok, >>-eq-ok, check-eq-ok, Result-cases, length, All, String,
}
use eosio_system.Base.Int.{
  ℤ, pos, negsuc, pos_part, neg_part, sub_ℕ, ◌+ℤ◌, ◌-ℤ◌, ◌*ℤ◌, neg_ℤ, ◌≤ℤ◌, ◌<ℤ◌, ltb_ℤ, leb_ℤ,
  eqb_ℤ, min_ℤ, max_ℤ, abs_ℤ, quot, rem, u128, i64, int_laws, parts_eq, +ℤ_parts, -ℤ_parts,
  eq_of_parts, sub_zero, sub_add, add_sub, eqb_refl, leb_true, +ℤ_pos, -ℤ_pos, i64_small,
  u128_small, eq_pos,
}
use eosio_system.Host.{
  Host, Name, is_set, Symbol, Asset, asset, add_amount, sub_amount, set_amount, Sent, Double,
  HasAssets, require_auth, now_sec, core, seconds_per_day, seconds_per_hour, seconds_per_year,
  useconds_per_day, useconds_per_year, blocks_per_day, end_of_days, rex_account, names_account,
  stake_account, ram_account, ramfee_account, saving_account, bpay_account, vpay_account,
  reserv_account, eosio, b1,
}
use eosio_system.State.{
  State, send, RexPool, RexReturnPool, Buckets, RexBalance, RexLoan, RexOrder, RexTables,
  UserResources, DelegatedBandwidth, RefundRequest, Limits, StakeTables, resources_empty,
  delegation_empty, refund_empty, VoterInfo, VoteTables, ExchangeState, RamTables, NameBid,
  NameTables,
}
use eosio_system.Table.{Table, find, put, erase, first, find-put, find-erase_ne, sorted}
use eosio_system.Table.Sum.{sum, amount_at, sum-put, sum-erase}
use eosio_system.Votes.{Votes}
use eosio_system.Market.{get_bancor_output}
use eosio_system.Resources.{update_resource_limits}
use eosio_system.Rex.Buckets.{
  consolidate_rex_balance, move_to_savings, move_from_savings, process_rex_maturities,
}
use eosio_system.Rex.Pool.{the_pool, rex_system_initialized, mul_div}
use eosio_system.Rex.Funds.{transfer_from_fund, transfer_to_fund}
use eosio_system.Rex.Loans.{
  rex_loans_available, add_loan_to_rex_pool, fund_rex_loan, defund_rex_loan, loan_period,
}
use eosio_system.Rex.Account.{set_rex, update_rex_account}
use eosio_system.Rex.Run.{Kind, loans_of, set_loans, net_delta, cpu_delta, runrex}

abbrev pub set_balance : {F : Type 0} → Name → RexBalance → State F → State F
set_balance owner rb s = set_rex (record s.rex { rexbalance = put owner rb s.rex.rexbalance }) s

module _ (host : Host) where
  open host use {F, now, self, core_symbol, asset_add, asset_sub}

  unfoldable pub deposit : Name → Asset → State F → Result (State F)
  deposit owner amount s = do
    require_auth host owner
    check (amount.symbol == core_symbol) "must deposit core token"
    check (ltb_ℤ (pos 0) amount.amount) "must deposit a positive amount"
    let s1 = send (Sent.transfer owner rex_account amount) s
    funds ← transfer_to_fund host owner amount s1.rex.rexfunds
    ok (set_rex (record s1.rex { rexfunds = funds }) s1)

  unfoldable pub cnclrexorder : Name → State F → Result (State F)
  cnclrexorder owner s = do
    require_auth host owner
    order ← require (find owner s.rex.rexorders) "no sellrex order is scheduled"
    check order.is_open "sellrex order has been filled and cannot be canceled"
    ok (set_rex (record s.rex { rexorders = erase owner s.rex.rexorders }) s)

  -- `rent_rex`: the tokens rented, and the state.
  unfoldable pub rent_rex : Kind → Name → Name → Asset → Asset → State F → Result (ℤ × State F)
  rent_rex k from receiver payment fund s0 = do
    s ← runrex host 2 s0
    check (rex_loans_available s.rex) "rex loans are currently not available"
    check (payment.symbol == core_symbol && fund.symbol == core_symbol) "must use core token"
    check (ltb_ℤ (pos 0) payment.amount && leb_ℤ (pos 0) fund.amount)
        "must use positive asset amount"
    total ← asset_add payment fund
    funds ← transfer_from_fund host from total s.rex.rexfunds
    p ← the_pool s.rex
    let rented = get_bancor_output host p.total_rent.amount p.total_unlent.amount payment.amount
    check (ltb_ℤ payment.amount rented) "loan price does not favor renting"
    t ← add_loan_to_rex_pool host payment rented true (record s.rex { rexfunds = funds })
    p' ← the_pool t
    let loan : RexLoan = record {
      from = from;
      receiver = receiver;
      payment = payment;
      balance = fund;
      total_staked = core host rented;
      expiration = now + loan_period;
    }
    let t' = set_loans k (put p'.loan_num loan (loans_of k t)) t
    ok (rented, send (Sent.rentresult (core host rented)) (set_rex t' s))

  -- `rentcpu` and `rentnet`
  unfoldable pub rent : Kind → Name → Name → Asset → Asset → State F → Result (State F)
  rent k from receiver payment fund s0 = do
    require_auth host from
    out ← rent_rex k from receiver payment fund s0
    update_resource_limits host from receiver (net_delta k out.0) (cpu_delta k out.0) out.1

  -- `fundcpuloan` and `fundnetloan`
  unfoldable pub fund_loan : Kind → Name → ℕ → Asset → State F → Result (State F)
  fund_loan k from loan_num payment s = do
    require_auth host from
    out ← fund_rex_loan host from loan_num payment s.rex.rexfunds (loans_of k s.rex)
    ok (set_rex (set_loans k out.1 (record s.rex { rexfunds = out.0 })) s)

  -- `defcpuloan` and `defnetloan`
  unfoldable pub defund_loan : Kind → Name → ℕ → Asset → State F → Result (State F)
  defund_loan k from loan_num amount s = do
    require_auth host from
    out ← defund_rex_loan host from loan_num amount s.rex.rexfunds (loans_of k s.rex)
    ok (set_rex (set_loans k out.1 (record s.rex { rexfunds = out.0 })) s)

  unfoldable pub setrex : Asset → State F → Result (State F)
  setrex balance s = do
    require_auth host eosio
    check (ltb_ℤ (pos 0) balance.amount) "balance must be set to have a positive amount"
    check (balance.symbol == core_symbol) "balance symbol must be core symbol"
    p ← require s.rex.rexpool "rex system is not initialized"
    ok (set_rex (record s.rex { rexpool = some (record p { total_rent = balance }) }) s)

  unfoldable pub rexexec : Name → ℕ → State F → Result (State F)
  rexexec user max s = do require_auth host user; runrex host max s

  module _ (votes : Votes host) where
    abbrev pub no_change : Name → State F → Result (Asset × State F)
    no_change owner s =
        update_rex_account host votes owner (core host (pos 0)) (core host (pos 0)) false s

    unfoldable pub withdraw : Name → Asset → State F → Result (State F)
    withdraw owner amount s = do
      require_auth host owner
      check (amount.symbol == core_symbol) "must withdraw core token"
      check (ltb_ℤ (pos 0) amount.amount) "must withdraw a positive amount"
      out ← no_change owner s
      let s1 = out.1
      funds ← transfer_from_fund host owner amount s1.rex.rexfunds
      ok (
          send (Sent.transfer rex_account owner amount)
            (set_rex (record s1.rex { rexfunds = funds }) s1))

    unfoldable pub updaterex : Name → State F → Result (State F)
    updaterex owner s0 = do
      require_auth host owner
      s ← runrex host 2 s0
      rb ← require (find owner s.rex.rexbalance) "account has no REX balance"
      p ← the_pool s.rex
      current ←
          (if ltb_ℤ (pos 0) p.total_rex.amount
            then mul_div rb.rex_balance.amount p.total_lendable.amount p.total_rex.amount
            else ok (pos 0))
      let s1 = set_balance owner (record rb { vote_stake = core host current }) s
      delta ← asset_sub (core host current) rb.vote_stake
      out ← update_rex_account host votes owner (core host (pos 0)) delta true s1
      rb' ← require (find owner (out.1).rex.rexbalance) "account has no REX balance"
      ok (set_balance owner (process_rex_maturities host rb') out.1)

    unfoldable pub consolidate : Name → State F → Result (State F)
    consolidate owner s0 = do
      require_auth host owner
      s ← runrex host 2 s0
      rb ← require (find owner s.rex.rexbalance) "account has no REX balance"
      out ← no_change owner s
      ok (set_balance owner (consolidate_rex_balance host out.0 rb) out.1)

    abbrev rex_amount : String
    rex_amount = "asset must be a positive amount of (REX, 4)"

    unfoldable pub mvtosavings : Name → Asset → State F → Result (State F)
    mvtosavings owner rex s0 = do
      require_auth host owner
      s ← runrex host 2 s0
      rb ← require (find owner s.rex.rexbalance) "account has no REX balance"
      check (ltb_ℤ (pos 0) rex.amount && rex.symbol == rb.rex_balance.symbol) rex_amount
      out ← no_change owner s
      rb' ← move_to_savings host rex.amount (out.0).amount rb
      ok (set_balance owner rb' out.1)

    unfoldable pub mvfrsavings : Name → Asset → State F → Result (State F)
    mvfrsavings owner rex s0 = do
      require_auth host owner
      s ← runrex host 2 s0
      rb ← require (find owner s.rex.rexbalance) "account has no REX balance"
      check (ltb_ℤ (pos 0) rex.amount && rex.symbol == rb.rex_balance.symbol) rex_amount
      rb' ← move_from_savings host rex.amount rb
      out ← no_change owner (set_balance owner rb' s)
      ok out.1

    -- Whether the owner has no loan of a kind.
    no_loans : Name → Table RexLoan → Bool
    no_loans owner [] = true
    no_loans owner ((num, loan) ∷ l) = not (loan.from == owner) && no_loans owner l

    -- The fund is closed if nothing depends on it.
    unfoldable pub close_fund : Name → RexTables → Table Asset
    unfolding no_loans
    close_fund owner t =
        let empty : Bool = elim (find owner t.rexfunds) [
          | none ↦ false
          | some balance ↦ eqb_ℤ balance.amount (pos 0)
        ] in
        if no_loans owner t.cpu_loans && no_loans owner t.net_loans && empty
        then erase owner t.rexfunds
        else t.rexfunds

    unfoldable pub closerex : Name → State F → Result (State F)
    unfolding close_fund
    closerex owner s0 = do
      require_auth host owner
      s ← (if rex_system_initialized s0.rex then runrex host 2 s0 else ok s0)
      out ← no_change owner s
      let t = (out.1).rex
      check
          (elim (find owner t.rexbalance) [
            | none ↦ true
            | some rb ↦ eqb_ℤ rb.rex_balance.amount (pos 0)
          ])
          "account has remaining REX balance, must sell first"
      let t' = record t { rexfunds = close_fund owner t; rexbalance = erase owner t.rexbalance }
      ok (set_rex t' out.1)
