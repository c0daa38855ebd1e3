-- ===== src/Rex/Loans.antt =====
-- Loans of the resource exchange, contracts/eosio.system/src/rex.cpp: what a loan does to the pool, and
-- the funds of a loan.
use eosio_system.Base.{
  ℕ, ◌+◌, ◌-◌, ◌*◌, ◌%◌, ◌^◌, Bool, true, false, not, ◌&&◌, Option, none, some, ltb, ◌==◌,
  if◌then◌else◌, Result, ok, ◌>>=◌, ◌>>◌, check, require,
}
use eosio_system.Base.Int.{ℤ, pos, ◌+ℤ◌, ◌-ℤ◌, neg_ℤ, ltb_ℤ}
use eosio_system.Host.{Host, Name, Asset, add_amount, sub_amount, set_amount, useconds_per_day}
use eosio_system.State.{RexPool, RexLoan, RexOrder, RexTables}
use eosio_system.Table.{Table, find, put, first}
use eosio_system.Market.{get_bancor_output}
use eosio_system.Rex.Pool.{the_pool, rex_available}
use eosio_system.Rex.Returns.{add_to_rex_return_pool}
use eosio_system.Rex.Funds.{transfer_from_fund, transfer_to_fund}

-- The order of the index `bytime`.
abbrev pub by_time : RexOrder → ℕ
by_time o = if o.is_open then o.order_time else 2 ^ 64 - 1

unfoldable pub rex_loans_available : RexTables → Bool
rex_loans_available t =
    rex_available t && elim (first by_time t.rexorders) [ none ↦ true | some r ↦ not (r.1).is_open ]

-- `eosio::days( 30 )`, in microseconds.
abbrev pub loan_period : ℕ
loan_period = 30 * useconds_per_day

module _ (host : Host) where
  open host use {now, core_symbol, asset_le}

  unfoldable pub add_loan_to_rex_pool : Asset → ℤ → Bool → RexTables → Result RexTables
  add_loan_to_rex_pool payment rented_tokens new_loan t = do
    t1 ← add_to_rex_return_pool host payment t
    p ← the_pool t1
    ok (record t1 {
      rexpool = some (record p {
        total_rent = add_amount p.total_rent payment.amount;
        total_unlent = sub_amount p.total_unlent rented_tokens;
        total_lent = add_amount p.total_lent rented_tokens;
        loan_num = if new_loan then (p.loan_num + 1) % 2 ^ 64 else p.loan_num;
      });
    })

  -- The pool without an expired loan.
  unfoldable pub remove_loan_from_rex_pool : RexLoan → RexPool → RexPool
  remove_loan_from_rex_pool loan p =
      let staked = loan.total_staked.amount in
      let delta_total_rent =
        get_bancor_output host p.total_unlent.amount p.total_rent.amount staked in
      let unlent = add_amount p.total_unlent staked in
      let lent = sub_amount p.total_lent staked in
      record p {
        total_rent = sub_amount p.total_rent delta_total_rent;
        total_unlent = unlent;
        total_lent = lent;
        total_lendable = set_amount p.total_lendable (unlent.amount +ℤ lent.amount);
      }

  -- The change of the stake, and the renewed loan.
  unfoldable pub update_renewed_loan : ℤ → RexLoan → ℤ × RexLoan
  update_renewed_loan rented_tokens loan = (
    rented_tokens -ℤ loan.total_staked.amount,
    record loan {
      total_staked = set_amount loan.total_staked rented_tokens;
      expiration = loan.expiration + loan_period;
      balance = sub_amount loan.balance loan.payment.amount;
    },
  )

  -- The two outcomes of `process_expired_loan`.
  unfoldable pub renew_loan : RexLoan → ℤ → RexTables → Result (ℤ × Option RexLoan × RexTables)
  renew_loan loan rented_tokens t = do
    t1 ← add_loan_to_rex_pool loan.payment rented_tokens false t
    let (delta_stake, loan') = update_renewed_loan rented_tokens loan
    ok (delta_stake, some loan', t1)

  unfoldable pub close_loan : RexLoan → RexTables → Result (ℤ × Option RexLoan × RexTables)
  close_loan loan t = do
    let refund = ltb_ℤ (pos 0) loan.balance.amount
    funds ←
        (if refund then transfer_to_fund host loan.from loan.balance t.rexfunds else ok t.rexfunds)
    ok (neg_ℤ loan.total_staked.amount, none, record t { rexfunds = funds })

  -- `process_expired_loan` of `runrex`: the change of the stake, the loan if it is renewed, and the tables.
  unfoldable pub process_expired_loan :
      RexLoan → RexTables → Result (ℤ × Option RexLoan × RexTables)
  process_expired_loan loan t = do
    p0 ← the_pool t
    let p = remove_loan_from_rex_pool loan p0
    let t1 = record t { rexpool = some p }
    let rented_tokens =
        get_bancor_output host p.total_rent.amount p.total_unlent.amount loan.payment.amount
    funded ← asset_le loan.payment loan.balance
    if funded && ltb_ℤ loan.payment.amount rented_tokens && rex_loans_available t1
        then renew_loan loan rented_tokens t1
        else close_loan loan t1

  unfoldable pub fund_rex_loan :
      Name → ℕ → Asset → Table Asset → Table RexLoan → Result (Table Asset × Table RexLoan)
  fund_rex_loan from loan_num payment funds loans = do
    check (payment.symbol == core_symbol) "must use core token"
    funds' ← transfer_from_fund host from payment funds
    loan ← require (find loan_num loans) "loan not found"
    check (loan.from == from) "user must be loan creator"
    check (ltb now loan.expiration) "loan has already expired"
    ok (
      funds',
      put loan_num (record loan { balance = add_amount loan.balance payment.amount }) loans,
    )

  unfoldable pub defund_rex_loan :
      Name → ℕ → Asset → Table Asset → Table RexLoan → Result (Table Asset × Table RexLoan)
  defund_rex_loan from loan_num amount funds loans = do
    check (amount.symbol == core_symbol) "must use core token"
    loan ← require (find loan_num loans) "loan not found"
    check (loan.from == from) "user must be loan creator"
    check (ltb now loan.expiration) "loan has already expired"
    enough ← asset_le amount loan.balance
    check enough "insufficent loan balance"
    let loans' =
        put loan_num (record loan { balance = sub_amount loan.balance amount.amount }) loans
    funds' ← transfer_to_fund host from amount funds
    ok (funds', loans')
