-- ===== src/Tests/Rex.antt =====
-- The theorems of the resource exchange at concrete states, contracts/eosio.system/src/rex.cpp.
use eosio_system.Base.{◌<◌, ◌≡◌, refl, [], ◌∷◌, arith}
use eosio_system.Base.Int.{pos, ◌+ℤ◌, ◌-ℤ◌, ◌≤ℤ◌, ◌<ℤ◌}
use eosio_system.Host.{Asset, end_of_days}
use eosio_system.State.{RexBalance}
use eosio_system.Table.{OnlyAt, Table, find, put}
use eosio_system.Table.Sum.{amount_at}
use eosio_system.Tests.Sample.{host, laws, alice, bob, carol, tokens, rex, bob_rex, tables}
use eosio_system.Rex.Buckets.{get_rex_maturity, take_savings, add_maturing, consolidate_rex_balance}
use eosio_system.Rex.Savings.{held_in}
use eosio_system.Rex.Moves.{savings, IsSound, add_maturing-IsSound}
use eosio_system.Rex.Consolidation.{consolidate_rex_balance_lem}
use eosio_system.Rex.Funds.{
  transfer_from_fund, transfer_to_fund, total_funds, transfer_from_fund_takes,
  transfer_to_fund_adds,
}

pub in_time : get_rex_maturity host < end_of_days
unfolding get_rex_maturity
in_time = omega arith

pub bob_rex-IsSound : IsSound host bob_rex
unfolding get_rex_maturity take_savings held_in ◌+ℤ◌
bob_rex-IsSound = record {
  balanced = refl;
  matured_nonneg = ground arith;
  savings_nonneg = ground arith;
  ascending = ground arith;
}

bought_rex : RexBalance
bought_rex = record bob_rex { rex_balance = rex 20100; vote_stake = tokens 4020 }

add_maturing-IsSound_example :
    IsSound host (add_maturing host (pos 100) bought_rex)
    × (savings (add_maturing host (pos 100) bought_rex) ≡ savings bob_rex)
unfolding bought_rex ◌+ℤ◌
add_maturing-IsSound_example =
    add_maturing-IsSound host in_time (pos 100) bob_rex (tokens 4020) bob_rex-IsSound (ground arith)

consolidate_rex_balance_lem_example :
    let out = consolidate_rex_balance host (rex 1000) bob_rex in
    IsSound host out
    × (savings out ≡ savings bob_rex)
    × (out.matured_rex ≡ pos 1000)
    × (out.rex_balance ≡ bob_rex.rex_balance)
unfolding take_savings ◌+ℤ◌
consolidate_rex_balance_lem_example =
    consolidate_rex_balance_lem host in_time (rex 1000) bob_rex bob_rex-IsSound (ground arith)
      (ground arith)

transfer_from_fund_takes_example :
    let funds : Table Asset = (alice, tokens 70) ∷ (bob, tokens 50) ∷ [] in
    (pos 0 <ℤ pos 30)
    × (total_funds funds +ℤ pos 30 ≡ total_funds tables.rexfunds)
    × (pos 30 ≤ℤ amount_at (λ a. a.amount) (find alice tables.rexfunds))
    × OnlyAt alice tables.rexfunds funds
unfolding transfer_from_fund find put ◌-ℤ◌
transfer_from_fund_takes_example =
    transfer_from_fund_takes host laws alice (tokens 30) tables.rexfunds
      ((alice, tokens 70) ∷ (bob, tokens 50) ∷ []) refl

transfer_to_fund_adds_example :
    let funds : Table Asset = (alice, tokens 100) ∷ (bob, tokens 50) ∷ (carol, tokens 5) ∷ [] in
    (pos 0 <ℤ pos 5)
    × (total_funds funds ≡ total_funds tables.rexfunds +ℤ pos 5)
    × OnlyAt carol tables.rexfunds funds
unfolding transfer_to_fund find put
transfer_to_fund_adds_example =
    transfer_to_fund_adds host carol (tokens 5) tables.rexfunds
      ((alice, tokens 100) ∷ (bob, tokens 50) ∷ (carol, tokens 5) ∷ []) refl
