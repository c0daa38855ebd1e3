-- ===== src/Rex/Books.antt =====
-- The books of the exchange: the pool against the loans and the balances, contracts/eosio.system/src/rex.cpp.
use eosio_system.Base.{
  ℕ, ◌≡◌, ◌∙◌, refl, sym, ap, inl, inr, Option, none, some, Bool-cases, ok, >>=-eq-ok, >>-eq-ok,
  check,
}
use eosio_system.Base.Int.{ℤ, pos, ◌+ℤ◌, ◌-ℤ◌, leb_ℤ, quot, int_laws, parts_eq, eq_of_parts}
use eosio_system.Host.{Name}
use eosio_system.State.{RexPool, RexBalance, RexLoan, RexOrder, RexTables}
use eosio_system.Table.{Table, find, put}
use eosio_system.Table.Sum.{sum, amount_at, sum-put, sum-erase}
use eosio_system.Rex.Pool.{fill_outcome, in_asset_range, fill_rex_order, RexOrderOutcome, mul_div}
use eosio_system.Rex.Price.{IsSplit}
use eosio_system.Rex.Lent.{Lends, staked}
use eosio_system.Rex.Run.{Kind, loans_of, set_loans, store_loan}

-- What all loans of a kind have staked, and the REX of all accounts.
abbrev pub all_staked : Table RexLoan → ℤ
all_staked = sum (λ l. l.total_staked.amount)

abbrev pub all_rex : Table RexBalance → ℤ
all_rex = sum (λ rb. rb.rex_balance.amount)

-- What is lendable is unlent or lent; what is lent is what the loans have staked; and the REX of the pool is
-- that of the accounts.
pub record IsBooked (t : RexTables) : Type 0 where
  pub pool : RexPool
  pub stored : t.rexpool ≡ some pool
  pub split : IsSplit pool
  pub lent : pool.total_lent.amount ≡ all_staked t.cpu_loans +ℤ all_staked t.net_loans
  pub rex : pool.total_rex.amount ≡ all_rex t.rexbalance

pub ok_same : {A : Type 0} (a b : A) → ok b ≡ ok a → a ≡ b
ok_same a b h = cc

-- A step that lends `delta` more keeps the books if the loans stake `delta` more.
pub Lends-IsBooked :
    (t t' : RexTables) (p : RexPool) (delta : ℤ) (cpu net : Table RexLoan)
    → Lends t t' p delta
    → p.total_lent.amount +ℤ delta ≡ all_staked cpu +ℤ all_staked net
    → p.total_rex.amount ≡ all_rex t.rexbalance
    → IsBooked (record t' { cpu_loans = cpu; net_loans = net })
Lends-IsBooked t t' p delta cpu net l lent rex = record {
  pool = l.pool;
  stored = l.stored;
  split = l.split;
  lent = l.lent ∙ lent;
  rex = ap (λ a. a.amount) l.rex ∙ rex ∙ ap all_rex (sym l.rows.0);
}

-- A step that lends nothing more keeps the books.
pub Lends-zero-IsBooked :
    (t t' : RexTables) → (b : IsBooked t) → Lends t t' b.pool (pos 0) → IsBooked t'
Lends-zero-IsBooked t t' b l =
    Lends-IsBooked t t' b.pool (pos 0) t'.cpu_loans t'.net_loans l
      (rw (l.rows.2, l.rows.3) (eq_of_parts _ _ (omega (int_laws, parts_eq _ _ b.lent)))) b.rex

-- Filling an order takes the same REX from the pool and from the account.
abbrev pub Sold : RexBalance → RexPool → RexOrderOutcome × RexBalance × RexPool → Type 0
Sold rb p (o, rb', p') =
    IsSplit p'
    × (p'.total_lent ≡ p.total_lent)
    × (p'.total_rex.amount -ℤ rb'.rex_balance.amount ≡ p.total_rex.amount -ℤ rb.rex_balance.amount)

fill_outcome-Sold :
    (proceeds current rex : ℤ) (rb : RexBalance) (p : RexPool)
    → IsSplit p
    → Sold rb p (fill_outcome proceeds current rex rb p)
unfolding fill_outcome
fill_outcome-Sold proceeds current rex rb p v =
    let available = p.total_unlent.amount -ℤ quot p.total_lent.amount 10 in
    elim (Bool-cases (leb_ℤ proceeds available)) [
      | inl e ↦ rw e (omega int_laws, refl, omega int_laws)
      | inr e ↦ rw e (v, refl, refl)
    ]

pub fill_rex_order-Sold :
    (rex : ℤ) (rb : RexBalance) (p : RexPool) (out : RexOrderOutcome × RexBalance × RexPool)
    → IsSplit p
    → fill_rex_order rex rb p ≡ ok out
    → Sold rb p out
unfolding fill_rex_order
fill_rex_order-Sold rex rb p out v h =
    let (proceeds, e1, h1) =
      >>=-eq-ok (mul_div rex p.total_lendable.amount p.total_rex.amount) _ h in
    let (_, h1') = >>-eq-ok (check (in_asset_range proceeds) _) _ h1 in
    let (current, e2, h2) =
      >>=-eq-ok (mul_div rb.rex_balance.amount p.total_lendable.amount p.total_rex.amount) _ h1' in
    rw (ok_same _ _ h2) (fill_outcome-Sold proceeds current rex rb p v)

store_loan-staked :
    (num : ℕ) (loan : RexLoan) (after : Option RexLoan) (delta : ℤ) (l : Table RexLoan)
    → find num l ≡ some loan
    → staked after ≡ loan.total_staked.amount +ℤ delta
    → all_staked (store_loan num after l) ≡ all_staked l +ℤ delta
unfolding amount_at
store_loan-staked num loan none delta l e d =
    let erased = rw e at (sum-erase (λ (x : RexLoan). x.total_staked.amount) num l) in
    eq_of_parts _ _ (omega (int_laws, parts_eq _ _ erased, parts_eq _ _ d))
store_loan-staked num loan (some loan') delta l e d =
    let stored = rw e at (sum-put (λ (x : RexLoan). x.total_staked.amount) num loan' l) in
    eq_of_parts _ _ (omega (int_laws, parts_eq _ _ stored, parts_eq _ _ d))

pub store_loan-IsBooked :
    (k : Kind) (num : ℕ) (loan : RexLoan) (after : Option RexLoan) (delta : ℤ) (t t' : RexTables)
    → (b : IsBooked t) → find num (loans_of k t) ≡ some loan
    → Lends t t' b.pool delta
    → staked after ≡ loan.total_staked.amount +ℤ delta
    → IsBooked (set_loans k (store_loan num after (loans_of k t')) t')
store_loan-IsBooked Kind.cpu num loan after delta t t' b e l d =
    let stored = store_loan-staked num loan after delta t'.cpu_loans (rw l.rows.2 e) d in
    Lends-IsBooked t t' b.pool delta (store_loan num after t'.cpu_loans) t'.net_loans l
      (rw (stored, l.rows.2, l.rows.3) (eq_of_parts _ _ (omega (int_laws, parts_eq _ _ b.lent))))
      b.rex
store_loan-IsBooked Kind.net num loan after delta t t' b e l d =
    let stored = store_loan-staked num loan after delta t'.net_loans (rw l.rows.3 e) d in
    Lends-IsBooked t t' b.pool delta t'.cpu_loans (store_loan num after t'.net_loans) l
      (rw (stored, l.rows.2, l.rows.3) (eq_of_parts _ _ (omega (int_laws, parts_eq _ _ b.lent))))
      b.rex

-- The pool and the row of an account, when the same REX is taken from both.
pub sold-IsBooked :
    (owner : Name) (rb rb' : RexBalance) (p' : RexPool) (orders : Table RexOrder) (t : RexTables)
    → (b : IsBooked t) → find owner t.rexbalance ≡ some rb
    → IsSplit p'
    → p'.total_lent ≡ b.pool.total_lent
    → p'.total_rex.amount -ℤ rb'.rex_balance.amount
      ≡ b.pool.total_rex.amount -ℤ rb.rex_balance.amount
    → IsBooked (record t {
      rexpool = some p';
      rexbalance = put owner rb' t.rexbalance;
      rexorders = orders;
    })
unfolding amount_at
sold-IsBooked owner rb rb' p' orders t b e v lent rex =
    let stored =
      rw e at (sum-put (λ (x : RexBalance). x.rex_balance.amount) owner rb' t.rexbalance) in
    record {
      pool = p';
      stored = refl;
      split = v;
      lent = ap (λ a. a.amount) lent ∙ b.lent;
      rex =
          eq_of_parts _ _
            (omega (int_laws, parts_eq _ _ stored, parts_eq _ _ rex, parts_eq _ _ b.rex));
    }
