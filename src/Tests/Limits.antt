-- ===== src/Tests/Limits.antt =====
-- A change of resource limits at a concrete state, contracts/eosio.system/src/rex.cpp.
use eosio_system.Base.{refl, inr, arith}
use eosio_system.Base.Int.{ℤ, pos, negsuc, ◌+ℤ◌}
use eosio_system.State.{State}
use eosio_system.Table.{find, erase}
use eosio_system.Resources.{update_resource_limits}
use eosio_system.Resources.Weights.{IsLimited, Moves, update_resource_limits-IsLimited}
use eosio_system.Tests.Sample.{host, returned, state, alice, carol}

abbrev limited : State ℤ
limited = returned state (update_resource_limits host alice carol (pos 40) (negsuc 29) state)

carol-IsLimited : IsLimited host carol state
unfolding find
carol-IsLimited = record {
  net_nonneg = omega arith;
  cpu_nonneg = omega arith;
  net_limit = inr refl;
  cpu_limit = inr refl;
}

update_resource_limits-IsLimited_example :
    IsLimited host carol limited × Moves host carol carol (pos 40) (negsuc 29) state limited
unfolding update_resource_limits find erase ◌+ℤ◌
update_resource_limits-IsLimited_example =
    update_resource_limits-IsLimited host alice carol carol (pos 40) (negsuc 29) state limited refl
      refl carol-IsLimited
