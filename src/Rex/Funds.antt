-- ===== src/Rex/Funds.antt =====
-- The REX funds, contracts/eosio.system/src/rex.cpp, `transfer_from_fund` and `transfer_to_fund`.
use eosio_system.Base.{
  ◌≡◌, inl, inr, ◌&&◌, none, some, arith, ◌==◌, Option-cases, Result, ok, ◌>>=◌, ◌>>◌, check,
  require, Result-cases,
}
use eosio_system.Base.Int.{ℤ, pos, ◌+ℤ◌, ◌-ℤ◌, ◌≤ℤ◌, ◌<ℤ◌, ltb_ℤ, int_laws, parts_eq, eq_of_parts}
use eosio_system.Host.{Host, Name, Asset, add_amount, sub_amount, HasAssets}
use eosio_system.Table.{OnlyAt, put-OnlyAt, Table, find, put, put-OnlyAt, OnlyAt}
use eosio_system.Table.Sum.{sum, amount_at, sum-put}

-- The tokens in all funds.
abbrev pub total_funds : Table Asset → ℤ
total_funds = sum (λ a. a.amount)

module _ (host : Host) where
  open host use {core_symbol, asset_le}

  unfoldable pub transfer_from_fund : Name → Asset → Table Asset → Result (Table Asset)
  transfer_from_fund owner amount funds = do
    check (ltb_ℤ (pos 0) amount.amount && amount.symbol == core_symbol)
        "must transfer positive amount from REX fund"
    balance ← require (find owner funds) "must deposit to REX fund first"
    enough ← asset_le amount balance
    check enough "insufficient funds"
    ok (put owner (sub_amount balance amount.amount) funds)

  unfoldable pub transfer_to_fund : Name → Asset → Table Asset → Result (Table Asset)
  transfer_to_fund owner amount funds = do
    check (ltb_ℤ (pos 0) amount.amount && amount.symbol == core_symbol)
        "must transfer positive amount to REX fund"
    ok (elim (find owner funds) [
      | none ↦ put owner amount funds
      | some balance ↦ put owner (add_amount balance amount.amount) funds
    ])

  -- What a transfer that does not abort does.
  transfer_from_fund_form :
      (laws : HasAssets host) (owner : Name) (amount : Asset) (funds funds' : Table Asset)
      → transfer_from_fund owner amount funds ≡ ok funds'
      → (balance : Asset) × (find owner funds ≡ some balance)
        × (funds' ≡ put owner (sub_amount balance amount.amount) funds)
        × (amount.amount ≤ℤ balance.amount)
        × (pos 0 <ℤ amount.amount)
  unfolding transfer_from_fund
  transfer_from_fund_form laws owner amount funds funds' h =
      elim (Option-cases (find owner funds)) [
        | inl e ↦ absurd (ground (arith, e))
        | inr (balance, e) ↦ elim (Result-cases (asset_le amount balance)) [
          | inl (m, r) ↦ absurd (ground (arith, e, r))
          | inr (c, r) ↦
              let le = laws.asset_le_ok amount balance c r in
              (balance, e, ground (arith, e, r), ground (arith, e, r, le), ground (arith, e, r))
        ]
      ]

  transfer_to_fund_form :
      (owner : Name) (amount : Asset) (funds funds' : Table Asset)
      → transfer_to_fund owner amount funds ≡ ok funds'
      → (balance : Asset) × (amount_at (λ a. a.amount) (find owner funds)
          ≡ balance.amount -ℤ amount.amount)
        × (funds' ≡ put owner balance funds)
        × (pos 0 <ℤ amount.amount)
  unfolding transfer_to_fund amount_at
  transfer_to_fund_form owner amount funds funds' h = elim (Option-cases (find owner funds)) [
    | inl e ↦ (amount, rw e (omega int_laws), ground (arith, e), ground (arith, e))
    | inr (balance, e) ↦ (
      add_amount balance amount.amount,
      rw e (omega int_laws),
      ground (arith, e),
      ground (arith, e),
    )
  ]

  -- A transfer from a fund that does not abort is of a positive amount, takes exactly that out of all
  -- funds, never more than the owner has, and leaves every other fund alone.
  pub transfer_from_fund_takes :
      (laws : HasAssets host) (owner : Name) (amount : Asset) (funds funds' : Table Asset)
      → transfer_from_fund owner amount funds ≡ ok funds'
      → (pos 0 <ℤ amount.amount)
        × (total_funds funds' +ℤ amount.amount ≡ total_funds funds)
        × (amount.amount ≤ℤ amount_at (λ a. a.amount) (find owner funds))
        × OnlyAt owner funds funds'
  unfolding amount_at
  transfer_from_fund_takes laws owner amount funds funds' h =
      let (balance, e, new, le, p) = transfer_from_fund_form laws owner amount funds funds' h in
      let b' = sub_amount balance amount.amount in
      let total = rw e at (sum-put (λ a. a.amount) owner b' funds) in
      (
        p,
        rw new (eq_of_parts _ _ (omega (int_laws, parts_eq _ _ total))),
        rw e le,
        rw new (put-OnlyAt owner b' funds),
      )

  -- A transfer to a fund that does not abort is of a positive amount, adds exactly that to all funds,
  -- also where the fund is opened for it, and leaves every other fund alone.
  pub transfer_to_fund_adds :
      (owner : Name) (amount : Asset) (funds funds' : Table Asset)
      → transfer_to_fund owner amount funds ≡ ok funds'
      → (pos 0 <ℤ amount.amount)
        × (total_funds funds' ≡ total_funds funds +ℤ amount.amount)
        × OnlyAt owner funds funds'
  transfer_to_fund_adds owner amount funds funds' h =
      let (balance, before, new, p) = transfer_to_fund_form owner amount funds funds' h in
      let total = rw before at (sum-put (λ a. a.amount) owner balance funds) in
      (
        p,
        rw new (eq_of_parts _ _ (omega (int_laws, parts_eq _ _ total))),
        rw new (put-OnlyAt owner balance funds),
      )
