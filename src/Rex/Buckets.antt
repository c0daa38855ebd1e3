-- ===== src/Rex/Buckets.antt =====
-- The maturity buckets of a REX balance, contracts/eosio.system/src/rex.cpp. A `std::deque` is the list
-- of its elements from front to back.
use eosio_system.Base.{
  not, ◌||◌, ℕ, ◌+◌, ◌-◌, ◌*◌, ◌%◌, ◌^◌, [], ◌∷◌, ◌==◌, leb, if◌then◌else◌, Result, ok, ◌>>◌, check,
}
use eosio_system.Base.Int.{ℤ, pos, ◌+ℤ◌, ◌-ℤ◌, ltb_ℤ, leb_ℤ, eqb_ℤ, min_ℤ}
use eosio_system.Host.{Host, now_sec, seconds_per_day, end_of_days, Asset}
use eosio_system.State.{Buckets, RexBalance}

-- The loop of `process_rex_maturities`: what is mature, and the buckets that are left.
unfoldable pub mature : ℕ → ℤ → Buckets → ℤ × Buckets
mature now acc [] = (acc, [])
mature now acc ((t, x) ∷ b) = if leb t now then mature now (acc +ℤ x) b else (acc, (t, x) ∷ b)

-- `if ( !empty() && back().first == t ) back().second += x; else emplace_back( t, x );`
unfoldable pub add_back : ℕ → ℤ → Buckets → Buckets
add_back t x [] = (t, x) ∷ []
add_back t x ((u, y) ∷ []) = if u == t then (u, y +ℤ x) ∷ [] else (u, y) ∷ (t, x) ∷ []
add_back t x (e ∷ f ∷ b) = e ∷ add_back t x (f ∷ b)

-- The bucket at the back is taken out if it is the savings bucket.
unfoldable pub take_savings : Buckets → ℤ × Buckets
take_savings [] = (pos 0, [])
take_savings ((u, y) ∷ []) = if u == end_of_days then (y, []) else (pos 0, (u, y) ∷ [])
take_savings (e ∷ f ∷ b) = let (x, rest) = take_savings (f ∷ b) in (x, e ∷ rest)

-- One round of the loop of `mvtosavings`, on the bucket that is at the back once those behind it
-- are popped: what is still wanted, and the buckets that are left.
unfoldable pub take_one : ℕ → ℤ → ℤ × Buckets → ℤ × Buckets
take_one t x (w, rest) =
    let drex = min_ℤ w x in
    if ltb_ℤ (pos 0) w
    then (w -ℤ drex, if eqb_ℤ (x -ℤ drex) (pos 0) then rest else (t, x -ℤ drex) ∷ rest)
    else (w, (t, x) ∷ rest)

-- The whole loop, from the back.
unfoldable pub take_back : ℤ → Buckets → ℤ × Buckets
take_back wanted [] = (wanted, [])
take_back wanted ((t, x) ∷ b) = take_one t x (take_back wanted b)

-- The loop of `consolidate_rex_balance`.
unfoldable pub total_of : ℤ → Buckets → ℤ
total_of total [] = total
total_of total ((t, x) ∷ b) = total_of (total +ℤ x) b

unfoldable pub read_rex_savings : RexBalance → ℤ × RexBalance
unfolding take_savings
read_rex_savings rb =
    let (x, b) = take_savings rb.rex_maturities in (x, record rb { rex_maturities = b })

unfoldable pub put_rex_savings : ℤ → RexBalance → RexBalance
unfolding add_back
put_rex_savings rex rb =
    if eqb_ℤ rex (pos 0)
    then rb
    else record rb { rex_maturities = add_back end_of_days rex rb.rex_maturities }

-- What `mvtosavings` does once its loop has ended: the rest comes out of the mature REX.
unfoldable pub settle : ℤ → ℤ → ℤ → ℤ × Buckets → RexBalance → Result RexBalance
unfolding put_rex_savings
settle rex in_sell_order rex_in_savings (left, b) rb = do
  let short = ltb_ℤ (pos 0) left
  let matured = if short then rb.matured_rex -ℤ left else rb.matured_rex
  let moved_rex = if short then rex -ℤ left +ℤ left else rex -ℤ left
  check (not short || leb_ℤ in_sell_order matured) "logic error in mvtosavings"
  check (eqb_ℤ moved_rex rex) "programmer error in mvtosavings"
  ok (
      put_rex_savings (rex_in_savings +ℤ rex)
        (record rb { matured_rex = matured; rex_maturities = b }))

module _ (host : Host) where
  unfoldable pub get_rex_maturity : ℕ
  get_rex_maturity =
      let r = now_sec host % seconds_per_day in (now_sec host - r + 5 * seconds_per_day) % 2 ^ 32

  unfoldable pub process_rex_maturities : RexBalance → RexBalance
  unfolding mature
  process_rex_maturities rb =
      let (m, b) = mature (now_sec host) rb.matured_rex rb.rex_maturities in
      record rb { matured_rex = m; rex_maturities = b }

  unfoldable pub consolidate_rex_balance : Asset → RexBalance → RexBalance
  unfolding read_rex_savings put_rex_savings total_of add_back get_rex_maturity
  consolidate_rex_balance rex_in_sell_order rb =
      let (rex_in_savings, rb1) = read_rex_savings rb in
      let total = total_of (rb1.matured_rex -ℤ rex_in_sell_order.amount) rb1.rex_maturities in
      put_rex_savings rex_in_savings (record rb1 {
        matured_rex = rex_in_sell_order.amount;
        rex_maturities = if ltb_ℤ (pos 0) total then (get_rex_maturity, total) ∷ [] else [];
      })

  -- The last part of `add_to_rex_balance`.
  unfoldable pub add_maturing : ℤ → RexBalance → RexBalance
  unfolding read_rex_savings process_rex_maturities add_back get_rex_maturity put_rex_savings
  add_maturing rex_received rb =
      let (rex_in_savings, rb1) = read_rex_savings rb in
      let rb2 = process_rex_maturities rb1 in
      put_rex_savings rex_in_savings
        (record rb2 { rex_maturities = add_back get_rex_maturity rex_received rb2.rex_maturities })

  -- `mvtosavings` on the balance of its owner.
  unfoldable pub move_to_savings : ℤ → ℤ → RexBalance → Result RexBalance
  unfolding read_rex_savings process_rex_maturities take_one take_back settle
  move_to_savings rex in_sell_order rb = do
    let saved = read_rex_savings rb
    let rb1 = saved.1
    check (leb_ℤ (rex +ℤ in_sell_order +ℤ saved.0) rb1.rex_balance.amount)
        "insufficient REX balance"
    let rb2 = process_rex_maturities rb1
    settle rex in_sell_order saved.0 (take_back rex rb2.rex_maturities) rb2

  -- `mvfrsavings` on the balance of its owner.
  unfoldable pub move_from_savings : ℤ → RexBalance → Result RexBalance
  unfolding read_rex_savings process_rex_maturities add_back get_rex_maturity put_rex_savings
  move_from_savings rex rb = do
    let saved = read_rex_savings rb
    check (leb_ℤ rex saved.0) "insufficient REX in savings"
    let rb2 = process_rex_maturities saved.1
    ok (
        put_rex_savings (saved.0 -ℤ rex)
          (record rb2 { rex_maturities = add_back get_rex_maturity rex rb2.rex_maturities }))
