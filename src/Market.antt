-- ===== src/Market.antt =====
-- The market maker, contracts/eosio.system/src/exchange_state.cpp. `convert` and its two helpers, which
-- the contract does not call, are left out.
use eosio_system.Base.{
  ◌≡◌, ◌&&◌, not, arith, ◌==◌, if◌then◌else◌, Result, ok, err, ◌>>=◌, ◌>>◌, check, >>=-eq-ok,
  Result-cases, inl, inr, ◌≢◌,
}
use eosio_system.Base.Int.{ℤ, pos, ◌+ℤ◌, ◌-ℤ◌, ◌≤ℤ◌, ltb_ℤ}
use eosio_system.Host.{Host, Asset, asset, Symbol, HasAssets}
use eosio_system.State.{ExchangeState}

module _ (host : Host) where
  open host use {of_int, fadd, fsub, fmul, fdiv, to_i64, asset_add, asset_sub}

  unfoldable pub get_bancor_output : ℤ → ℤ → ℤ → ℤ
  get_bancor_output inp_reserve out_reserve inp =
      let ib = of_int inp_reserve in
      let ob = of_int out_reserve in
      let x = of_int inp in
      let out = to_i64 (fdiv (fmul x ob) (fadd ib x)) in if ltb_ℤ out (pos 0) then pos 0 else out

  unfoldable pub get_bancor_input : ℤ → ℤ → ℤ → ℤ
  get_bancor_input out_reserve inp_reserve out =
      let ob = of_int out_reserve in
      let ib = of_int inp_reserve in
      let inp = to_i64 (fdiv (fmul ib (of_int out)) (fsub ob (of_int out))) in
      if ltb_ℤ inp (pos 0) then pos 0 else inp

  -- One branch of `direct_convert`: what is paid out, and the two connectors.
  exchange : Asset → Symbol → Asset → Asset → Result (Asset × Asset × Asset)
  exchange from to inp_reserve out_reserve = do
    let out = asset (get_bancor_output inp_reserve.amount out_reserve.amount from.amount) to
    inp' ← asset_add inp_reserve from
    out' ← asset_sub out_reserve out
    ok (out, inp', out')

  -- What is paid out, and the market after it.
  unfoldable pub direct_convert : Asset → Symbol → ExchangeState → Result (Asset × ExchangeState)
  unfolding exchange
  direct_convert from to m = do
    check (not (from.symbol == to)) "cannot convert to the same symbol"
    if from.symbol == m.base.symbol && to == m.quote.symbol
        then exchange from to m.base m.quote
          >>= (λ (out, b, q). ok (out, record m { base = b; quote = q }))
        else (if from.symbol == m.quote.symbol && to == m.base.symbol
            then exchange from to m.quote m.base
              >>= (λ (out, q, b). ok (out, record m { base = b; quote = q }))
            else err "invalid conversion")

  -- The market maker pays and asks at least 0.
  pub get_bancor_output_nonneg :
      (inp_reserve out_reserve inp : ℤ) → pos 0 ≤ℤ get_bancor_output inp_reserve out_reserve inp
  unfolding get_bancor_output
  get_bancor_output_nonneg inp_reserve out_reserve inp = ground arith

  -- What one branch does, when it does not abort.
  exchange_ok :
      (laws : HasAssets host) (from : Asset) (to : Symbol) (i o : Asset) (out i' o' : Asset)
      → exchange from to i o ≡ ok (out, i', o')
      → (i'.amount ≡ i.amount +ℤ from.amount)
        × (o'.amount ≡ o.amount -ℤ out.amount)
        × (pos 0 ≤ℤ out.amount)
        × (i'.symbol ≡ i.symbol)
        × (o'.symbol ≡ o.symbol)
        × (out.symbol ≡ to)
  unfolding exchange
  exchange_ok laws from to i o out i' o' h =
      let paid = asset (get_bancor_output i.amount o.amount from.amount) to in
      let (a, ea, h1) = >>=-eq-ok (asset_add i from) _ h in
      let (b, eb, h2) = >>=-eq-ok (asset_sub o paid) _ h1 in
      ground (
        arith,
        laws.asset_add_ok i from a ea,
        laws.asset_sub_ok o paid b eb,
        get_bancor_output_nonneg i.amount o.amount from.amount,
      )

  -- A conversion of base tokens in a market with two symbols, when it does not abort, adds what is
  -- paid in to the base connector and takes what is paid out, at least 0, from the quote connector;
  -- both connectors keep their symbols, and the payout has the symbol asked for, that of the quote
  -- connector.
  pub direct_convert_base :
      (laws : HasAssets host) (from : Asset) (to : Symbol) (m m' : ExchangeState) (out : Asset)
      → m.base.symbol ≢ m.quote.symbol
      → from.symbol ≡ m.base.symbol
      → direct_convert from to m ≡ ok (out, m')
      → (m'.base.amount ≡ m.base.amount +ℤ from.amount)
        × (m'.quote.amount ≡ m.quote.amount -ℤ out.amount)
        × (pos 0 ≤ℤ out.amount)
        × (m'.base.symbol ≡ m.base.symbol)
        × (m'.quote.symbol ≡ m.quote.symbol)
        × (out.symbol ≡ m.quote.symbol)
        × (to ≡ m.quote.symbol)
  unfolding direct_convert
  direct_convert_base laws from to m m' out ne sym h =
      elim (Result-cases (exchange from to m.base m.quote)) [
        | inl (e, r) ↦ ground (arith, r)
        | inr ((p, b, q), r) ↦ ground (arith, r, exchange_ok laws from to m.base m.quote p b q r)
      ]

  -- A conversion of quote tokens in a market with two symbols, when it does not abort, adds what is
  -- paid in to the quote connector and takes what is paid out, at least 0, from the base connector;
  -- both connectors keep their symbols, and the payout has the symbol asked for, that of the base
  -- connector.
  pub direct_convert_quote :
      (laws : HasAssets host) (from : Asset) (to : Symbol) (m m' : ExchangeState) (out : Asset)
      → m.base.symbol ≢ m.quote.symbol
      → from.symbol ≡ m.quote.symbol
      → direct_convert from to m ≡ ok (out, m')
      → (m'.quote.amount ≡ m.quote.amount +ℤ from.amount)
        × (m'.base.amount ≡ m.base.amount -ℤ out.amount)
        × (pos 0 ≤ℤ out.amount)
        × (m'.base.symbol ≡ m.base.symbol)
        × (m'.quote.symbol ≡ m.quote.symbol)
        × (out.symbol ≡ m.base.symbol)
        × (to ≡ m.base.symbol)
  unfolding direct_convert
  direct_convert_quote laws from to m m' out ne sym h =
      elim (Result-cases (exchange from to m.quote m.base)) [
        | inl (e, r) ↦ ground (arith, r)
        | inr ((p, q, b), r) ↦ ground (arith, r, exchange_ok laws from to m.quote m.base p q b r)
      ]
