-- ===== src/Tests/Ram.antt =====
-- The memory market at concrete states, contracts/eosio.system/src/delegate_bandwidth.cpp.
use eosio_system.Base.{◌+◌, ◌≡◌, ◌≢◌, refl, some, arith}
use eosio_system.Base.Int.{ℤ, pos, ◌+ℤ◌, ◌-ℤ◌, ◌*ℤ◌, ◌≤ℤ◌, ◌<ℤ◌}
use eosio_system.Host.{asset}
use eosio_system.State.{ExchangeState, RamTables}
use eosio_system.Tests.Sample.{host, laws, returned, tokens, eos}
use eosio_system.Ram.{ram_symbol, update_ram_supply, take_ram, give_ram}
use eosio_system.Ram.Supply.{
  IsSupplied, update_ram_supply-IsSupplied, take_ram-IsSupplied, give_ram-IsSupplied,
}

abbrev bytes_market : ExchangeState
bytes_market = record {
  supply = asset (pos 100000000000000) 0x4552_4f43_4d41_5204;
  base = asset (pos 64000) ram_symbol;
  quote = tokens 10000;
}

abbrev memory : RamTables
memory = record {
  rammarket = some bytes_market;
  max_ram_size = 100000;
  total_ram_bytes_reserved = 36000;
  total_ram_stake = pos 5000;
  new_ram_per_block = 10;
  last_ram_increase = 1306630700;
}

memory-IsSupplied : IsSupplied eos memory
unfolding ◌+ℤ◌
memory-IsSupplied = record {
  market = bytes_market;
  stored = refl;
  supply = refl;
  base = refl;
  quote = refl;
  fits = omega arith;
  counted = omega arith;
}

abbrev grown : RamTables
grown = returned memory (update_ram_supply host memory)

update_ram_supply-IsSupplied_example : IsSupplied eos grown
unfolding update_ram_supply
update_ram_supply-IsSupplied_example =
    update_ram_supply-IsSupplied host memory grown memory-IsSupplied (omega arith) refl

apart : eos ≢ ram_symbol
apart = ground arith

abbrev taken : ℤ × RamTables
taken = returned (pos 0, memory) (take_ram host (tokens 700) memory)

take_ram-IsSupplied_example :
    IsSupplied eos taken.1
    × (pos (taken.1).total_ram_bytes_reserved ≡ pos 36000 +ℤ taken.0)
    × ((taken.1).max_ram_size ≡ 100000)
    × ((taken.1).total_ram_stake ≡ pos 5000 +ℤ pos 700)
unfolding take_ram memory-IsSupplied eosio_system.Market.direct_convert
    eosio_system.Market.get_bancor_output ◌*ℤ◌
take_ram-IsSupplied_example =
    take_ram-IsSupplied host laws apart (tokens 700) memory taken memory-IsSupplied refl refl
      (ground arith)

abbrev given : ℤ × RamTables
given = returned (pos 0, memory) (give_ram host (pos 3000) memory)

give_ram-IsSupplied_example :
    IsSupplied eos given.1
    × ((given.1).total_ram_bytes_reserved + 3000 ≡ 36000)
    × ((given.1).max_ram_size ≡ 100000)
    × ((given.1).total_ram_stake ≡ pos 5000 -ℤ given.0)
    × (pos 1 <ℤ given.0)
    × (pos 0 ≤ℤ (given.1).total_ram_stake)
unfolding give_ram eosio_system.Market.direct_convert eosio_system.Market.get_bancor_output ◌*ℤ◌
    ◌+ℤ◌ ◌-ℤ◌
give_ram-IsSupplied_example =
    give_ram-IsSupplied host laws apart 3000 memory given memory-IsSupplied (omega arith) refl
