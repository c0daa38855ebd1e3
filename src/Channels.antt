-- ===== src/Channels.antt =====
-- The interface between the memory market and the pools: what `channel_to_rex_or_pools` of
-- contracts/eosio.system/src/staking_pool.cpp promises to the code that sends it a fee.
use eosio_system.Base.{◌≡◌, Result, ok}
use eosio_system.Host.{Host, Name, Asset}
use eosio_system.State.{State}

pub record Channels (host : Host) : Type 0 where
  -- without the requirement that all funds are transferred
  pub channel_to_rex_or_pools : Name → Asset → State host.F → Result (State host.F)
  -- Fees go to the pools and to REX alone.
  pub channel_frame :
      (from : Name) (amount : Asset) (s s' : State host.F)
      → channel_to_rex_or_pools from amount s ≡ ok s'
      → (s'.ram ≡ s.ram)
        × (s'.stake ≡ s.stake)
        × (s'.voting ≡ s.voting)
        × (s'.auctions ≡ s.auctions)
