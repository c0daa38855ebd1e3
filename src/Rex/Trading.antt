-- ===== src/Rex/Trading.antt =====
-- The books over a sale of REX, contracts/eosio.system/src/rex.cpp, `sellrex` and `update_rex_account`.
use eosio_system.Base.{
  ◌≡◌, ◌∙◌, refl, sym, ap, Bool, false, not, ◌&&◌, ◌||◌, Option, none, some, arith, ◌==◌,
  if◌then◌else◌, Result, ok, ◌>>=◌, check, require, >>=-eq-ok, >>-eq-ok, String,
}
use eosio_system.Base.Int.{
  ℤ, pos, ◌+ℤ◌, ◌-ℤ◌, ◌<ℤ◌, ltb_ℤ, leb_ℤ, eqb_ℤ, int_laws, parts_eq, eq_of_parts,
}
use eosio_system.Host.{Host, Name, Asset, asset, add_amount, Sent, HasAssets, require_auth, core}
use eosio_system.State.{State, send, RexPool, RexBalance, RexTables}
use eosio_system.Table.{Table, find, put}
use eosio_system.Table.Sum.{amount_at, sum-put}
use eosio_system.Votes.{Votes}
use eosio_system.Stake.VotingPower.{update_voting_power, update_voting_power_frame}
use eosio_system.Rex.Pool.{
  the_pool, fill_rex_order, RexOrderOutcome, add_to_rex_pool, rex_symbol, grow_rex_pool, mul_div,
}
use eosio_system.Rex.Price.{IsSplit}
use eosio_system.Rex.Funds.{transfer_to_fund, transfer_from_fund}
use eosio_system.Rex.Account.{
  set_rex, update_rex_account, settle_order, add_to_rex_balance, bought, init_rex_stake,
  check_voting_requirement,
}
use eosio_system.Rex.Buckets.{
  process_rex_maturities, add_maturing, put_rex_savings, read_rex_savings,
}
use eosio_system.Rex.Run.{runrex}
use eosio_system.Rex.Actions.Trade.{sellrex, sell_now, end_of_sale, enqueue, buy, buyrex}
use eosio_system.Rex.Books.{IsBooked, sold-IsBooked, fill_rex_order-Sold, ok_same}
use eosio_system.Rex.Upkeep.{runrex-IsBooked}

-- The tables that the books are about.
abbrev pub SameBooks : RexTables → RexTables → Type 0
SameBooks t t' =
    (t'.rexpool ≡ t.rexpool)
    × (t'.rexbalance ≡ t.rexbalance)
    × (t'.cpu_loans ≡ t.cpu_loans)
    × (t'.net_loans ≡ t.net_loans)

pub SameBooks-IsBooked : (t t' : RexTables) → IsBooked t → SameBooks t t' → IsBooked t'
SameBooks-IsBooked t t' b (pool, balances, cpu, net) = record {
  pool = b.pool;
  stored = pool ∙ b.stored;
  split = b.split;
  lent = rw (cpu, net) b.lent;
  rex = rw balances b.rex;
}

require-eq-ok : {A : Type 0} (o : Option A) (e : String) (a : A) → require o e ≡ ok a → o ≡ some a
require-eq-ok none e a h = cc
require-eq-ok (some b) e a h = ground (arith, h)

module _ (host : Host) (votes : Votes host) where
  open host use {F, core_symbol}

  pub update_rex_account-SameBooks :
      (owner : Name) (proceeds delta : Asset) (force : Bool) (s : State F) (out : Asset × State F)
      → update_rex_account host votes owner proceeds delta force s ≡ ok out
      → SameBooks s.rex (out.1).rex
  unfolding update_rex_account
  update_rex_account-SameBooks owner proceeds delta force s out h =
      let (in_order, order_proceeds, order_stake, orders) = settle_order owner s.rex.rexorders in
      let to_fund = add_amount proceeds order_proceeds in
      let to_stake = add_amount delta order_stake in
      let paid : Result (Table Asset) =
        if ltb_ℤ (pos 0) to_fund.amount
        then transfer_to_fund host owner to_fund s.rex.rexfunds
        else ok s.rex.rexfunds in
      let (funds, e1, h1) = >>=-eq-ok paid _ h in
      let s1 = set_rex (record s.rex { rexorders = orders; rexfunds = funds }) s in
      let staked : Result (State F) =
        if force || not (eqb_ℤ to_stake.amount (pos 0))
        then update_voting_power host votes owner to_stake s1
        else ok s1 in
      let (s2, e2, h2) = >>=-eq-ok staked _ h1 in
      ground (arith, e2, h2, update_voting_power_frame host votes owner to_stake s1 s2)

  end_of_sale-SameBooks :
      (from : Name) (rex : Asset) (o : RexOrderOutcome) (rb : RexBalance) (out : Asset × State F)
      (s' : State F)
      → end_of_sale host votes from rex o rb out ≡ ok s'
      → SameBooks (out.1).rex s'.rex
  unfolding end_of_sale enqueue
  end_of_sale-SameBooks from rex o rb out s' h = ground (arith, h)

  sell_now-IsBooked :
      (from : Name) (rex : Asset) (s s' : State F)
      → IsBooked s.rex
      → sell_now host votes from rex s ≡ ok s'
      → IsBooked s'.rex
  unfolding sell_now process_rex_maturities
  sell_now-IsBooked from rex s s' b h =
      let (rb0, er, h2) =
        >>=-eq-ok (require (find from s.rex.rexbalance) "user must first buyrex") _ h in
      let row : find from s.rex.rexbalance ≡ some rb0 = require-eq-ok _ _ rb0 er in
      let rb1 = process_rex_maturities host rb0 in
      let (_, h3) =
        >>-eq-ok (check (ltb_ℤ (pos 0) rex.amount && rex.symbol == rb0.rex_balance.symbol) _) _
          h2 in
      let (_, h4) = >>-eq-ok (check (leb_ℤ rex.amount rb1.matured_rex) _) _ h3 in
      let (p, ep, h5) = >>=-eq-ok (the_pool s.rex) _ h4 in
      let same_pool : p ≡ b.pool = ground (arith, ep, b.stored) in
      let ((o, rb, p'), ef, h6) = >>=-eq-ok (fill_rex_order rex.amount rb1 p) _ h5 in
      let filled : fill_rex_order rex.amount rb1 b.pool ≡ ok (o, rb, p') =
        ap (fill_rex_order rex.amount rb1) (sym same_pool) ∙ ef in
      let sold = fill_rex_order-Sold rex.amount rb1 b.pool (o, rb, p') b.split filled in
      let (_, h7) = >>-eq-ok (check (not (o.success && eqb_ℤ o.proceeds (pos 0))) _) _ h6 in
      let t = record s.rex { rexpool = some p'; rexbalance = put from rb s.rex.rexbalance } in
      let (out, ea, h8) =
        >>=-eq-ok
          (update_rex_account host votes from (core host o.proceeds) (core host o.stake_change)
            false (set_rex t s))
          _ h7 in
      let b2 = sold-IsBooked from rb0 rb p' s.rex.rexorders s.rex b row sold.0 sold.1 sold.2 in
      let same =
        update_rex_account-SameBooks from (core host o.proceeds) (core host o.stake_change) false
          (set_rex t s) out ea in
      SameBooks-IsBooked (out.1).rex s'.rex (SameBooks-IsBooked t (out.1).rex b2 same)
        (end_of_sale-SameBooks from rex o rb out s' h8)

  -- `sellrex`, whether the order is filled or queued, with the maintenance before it, keeps the books
  -- of the exchange when it does not abort: lendable is unlent and lent, lent is what all loans have
  -- staked, and the REX of the pool is the REX of all accounts.
  pub sellrex-IsBooked :
      (laws : HasAssets host) (from : Name) (rex : Asset) (s s' : State F)
      → IsBooked s.rex
      → sellrex host votes from rex s ≡ ok s'
      → IsBooked s'.rex
  unfolding sellrex
  sellrex-IsBooked laws from rex s s' b h =
      let (_, h0) = >>-eq-ok (require_auth host from) _ h in
      let (s1, e1, h1) = >>=-eq-ok (runrex host 2 s) _ h0 in
      sell_now-IsBooked from rex s1 s' (runrex-IsBooked host laws 2 s s1 b e1) h1

  grow_rex_pool-adds :
      (payment : Asset) (p : RexPool) (q : ℤ × RexPool)
      → grow_rex_pool host payment p ≡ ok q
      → IsSplit q.1
        × ((q.1).total_lent ≡ p.total_lent)
        × ((q.1).total_rex.amount ≡ p.total_rex.amount +ℤ q.0)
  unfolding grow_rex_pool
  grow_rex_pool-adds payment p q h =
      let S1 = p.total_lendable.amount +ℤ payment.amount in
      let (_, h1) = >>-eq-ok (check (ltb_ℤ (pos 0) p.total_lendable.amount) _) _ h in
      let (R1, e2, h2) = >>=-eq-ok (mul_div S1 p.total_rex.amount p.total_lendable.amount) _ h1 in
      let (_, h3) = >>-eq-ok (check (leb_ℤ (pos 0) (S1 -ℤ p.total_lent.amount)) _) _ h2 in
      rw (ok_same _ _ h3) (omega int_laws, refl, omega int_laws)

  bought-adds :
      (payment received : Asset) (o : Option RexBalance) (t : RexTables) (row : RexBalance)
      → bought host payment received o t ≡ ok row
      → row.rex_balance.amount
        ≡ amount_at (λ (x : RexBalance). x.rex_balance.amount) o +ℤ received.amount
  unfolding bought amount_at
  bought-adds payment received none t row h = rw (ok_same _ _ h) (omega int_laws)
  bought-adds payment received (some rb) t row h = ground (arith, h)

  add_maturing-rex_balance :
      (x : ℤ) (rb : RexBalance) → (add_maturing host x rb).rex_balance ≡ rb.rex_balance
  unfolding add_maturing put_rex_savings read_rex_savings process_rex_maturities
  add_maturing-rex_balance x rb = ground arith

  -- The row of the buyer holds the REX received more than before.
  add_to_rex_balance-adds :
      (owner : Name) (payment received : Asset) (t : RexTables) (out : Asset × RexTables)
      → add_to_rex_balance host owner payment received t ≡ ok out
      → (row : RexBalance) × (out.1 ≡ record t { rexbalance = put owner row t.rexbalance })
        × (row.rex_balance.amount
            ≡ amount_at (λ (x : RexBalance). x.rex_balance.amount) (find owner t.rexbalance)
              +ℤ received.amount)
  unfolding add_to_rex_balance amount_at
  add_to_rex_balance-adds owner payment received t out h =
      let (row, e1, h1) =
        >>=-eq-ok (bought host payment received (find owner t.rexbalance) t) _ h in
      let stake = init_rex_stake host (find owner t.rexbalance) in
      let (delta, e2, h2) =
        >>=-eq-ok (host.asset_sub (core host row.vote_stake.amount) (core host stake)) _ h1 in
      (
        add_maturing host received.amount row,
        ap (λ r. r.1) (ok_same _ _ h2),
        ap (λ a. a.amount) (add_maturing-rex_balance received.amount row)
            ∙ bought-adds payment received (find owner t.rexbalance) t row e1,
      )

  -- Buying REX from a pool that has REX keeps the books.
  buy-IsBooked :
      (from : Name) (amount : Asset) (t : RexTables) (out : Asset × Asset × RexTables)
      → (b : IsBooked t) → pos 0 <ℤ b.pool.total_rex.amount
      → buy host votes from amount t ≡ ok out
      → IsBooked (out.2)
  unfolding buy add_to_rex_pool
  buy-IsBooked from amount t out b avail h =
      let (q, eq, h1) = >>=-eq-ok (add_to_rex_pool host amount t.rexpool) _ h in
      let grown : grow_rex_pool host amount b.pool ≡ ok q = ground (arith, eq, b.stored, avail) in
      let (split, lent, more) = grow_rex_pool-adds amount b.pool q grown in
      let t1 : RexTables = record t { rexpool = some q.1 } in
      let received = asset q.0 rex_symbol in
      let (r, er, h2) = >>=-eq-ok (add_to_rex_balance host from amount received t1) _ h1 in
      let (row, et, amount_of) = add_to_rex_balance-adds from amount received t1 r er in
      let stored = sum-put (λ (x : RexBalance). x.rex_balance.amount) from row t.rexbalance in
      rw (ap (λ (o : Asset × Asset × RexTables). o.2) (ok_same _ _ h2) ∙ et) (record {
        pool = q.1;
        stored = refl;
        split = split;
        lent = ap (λ a. a.amount) lent ∙ b.lent;
        rex = eq_of_parts _ _ (
            omega (
              int_laws,
              parts_eq _ _ stored,
              parts_eq _ _ more,
              parts_eq _ _ b.rex,
              parts_eq _ _ amount_of,
            ));
      })

  -- What `buyrex` does once the payment is taken out of the fund.
  buyrex_rest-IsBooked :
      (laws : HasAssets host) (from : Name) (amount : Asset) (t : RexTables) (s s' : State F)
      → (b : IsBooked t) → pos 0 <ℤ b.pool.total_rex.amount
      → (do
        out ← buy host votes from amount t
        s1 ← runrex host 2 (set_rex out.2 s)
        out1 ← update_rex_account host votes from (core host (pos 0)) out.1 false s1
        ok (send (Sent.buyresult out.0) out1.1))
        ≡ ok s'
      → IsBooked s'.rex
  buyrex_rest-IsBooked laws from amount t s s' b avail h =
      let (out, e1, h1) = >>=-eq-ok (buy host votes from amount t) _ h in
      let b1 = buy-IsBooked from amount t out b avail e1 in
      let (s1, e2, h2) = >>=-eq-ok (runrex host 2 (set_rex out.2 s)) _ h1 in
      let b2 = runrex-IsBooked host laws 2 (set_rex out.2 s) s1 b1 e2 in
      let (out1, e3, h3) =
        >>=-eq-ok (update_rex_account host votes from (core host (pos 0)) out.1 false s1) _ h2 in
      let b3 =
        SameBooks-IsBooked s1.rex (out1.1).rex b2
          (update_rex_account-SameBooks from (core host (pos 0)) out.1 false s1 out1 e3) in
      rw (ok_same s' (send (Sent.buyresult out.0) out1.1) h3) b3

  -- `buyrex` from a pool that has REX, with the maintenance after it, keeps the books of the exchange
  -- when it does not abort: lendable is unlent and lent, lent is what all loans have staked, and the
  -- REX of the pool is the REX of all accounts.
  pub buyrex-IsBooked :
      (laws : HasAssets host) (from : Name) (amount : Asset) (s s' : State F)
      → (b : IsBooked s.rex) → pos 0 <ℤ b.pool.total_rex.amount
      → buyrex host votes from amount s ≡ ok s'
      → IsBooked s'.rex
  unfolding buyrex
  buyrex-IsBooked laws from amount s s' b avail h =
      let (_, h1) = >>-eq-ok (require_auth host from) _ h in
      let (_, h2) = >>-eq-ok (check (amount.symbol == core_symbol) _) _ h1 in
      let (_, h3) = >>-eq-ok (check (ltb_ℤ (pos 0) amount.amount) _) _ h2 in
      let (_, h4) = >>-eq-ok (check_voting_requirement host from _ s) _ h3 in
      let (funds, e5, h5) = >>=-eq-ok (transfer_from_fund host from amount s.rex.rexfunds) _ h4 in
      buyrex_rest-IsBooked laws from amount (record s.rex { rexfunds = funds }) s s'
        (record { pool = b.pool; stored = b.stored; split = b.split; lent = b.lent; rex = b.rex })
        avail h5
