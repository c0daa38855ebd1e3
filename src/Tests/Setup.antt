-- ===== src/Tests/Setup.antt =====
-- The start of the contract and its inflation at concrete states, contracts/eosio.system/src/eosio.system.cpp.
use eosio_system.Base.{refl, none, arith}
use eosio_system.Base.Int.{ℤ, pos}
use eosio_system.State.{State}
use eosio_system.Setup.{init, setinflation}
use eosio_system.Setup.Start.{init-IsSupplied, setinflation-IsFunded}
use eosio_system.Ram.Supply.{IsSupplied}
use eosio_system.Pay.Accounts.{IsFunded}
use eosio_system.Tests.Sample.{host, returned, state, tokens, eos}

-- 64 GiB of memory, 1 GiB of it reserved, and no market.
abbrev fresh : State ℤ
fresh = record state {
  ram = record state.ram {
    rammarket = none;
    max_ram_size = 68719476736;
    total_ram_bytes_reserved = 1073741824;
  };
}

abbrev initialized : State ℤ
initialized = returned fresh (init host (tokens 10000000000000) 0 eos fresh)

init-IsSupplied_example : IsSupplied eos initialized.ram
unfolding init
init-IsSupplied_example =
    init-IsSupplied host (tokens 10000000000000) 0 eos fresh initialized refl (omega arith)
      (omega arith)

abbrev inflated : State ℤ
inflated = returned state (setinflation host (λ x. x) (pos 500) (pos 50000) (pos 40000) state)

setinflation-IsFunded_example : IsFunded inflated.pay
unfolding setinflation
setinflation-IsFunded_example =
    setinflation-IsFunded host (λ x. x) (pos 500) (pos 50000) (pos 40000) state inflated refl
      (omega arith) (omega arith) (omega arith) (omega arith) (omega arith)
