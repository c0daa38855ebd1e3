-- ===== src/Votes.antt =====
-- The interface between staking and voting: what `update_votes` of contracts/eosio.system/src/voting.cpp
-- promises to the code that changes a voter's stake.
use eosio_system.Base.{◌≡◌, Bool, List, Result, ok}
use eosio_system.Host.{Host, Name}
use eosio_system.State.{State}

pub record Votes (host : Host) : Type 0 where
  pub update_votes : Name → Name → List Name → Bool → State host.F → Result (State host.F)
  -- Votes are counted in the tables of voting alone.
  pub update_votes_frame :
      (voter proxy : Name) (producers : List Name) (voting : Bool) (s s' : State host.F)
      → update_votes voter proxy producers voting s ≡ ok s'
      → (s'.rex ≡ s.rex)
        × (s'.stake ≡ s.stake)
        × (s'.ram ≡ s.ram)
        × (s'.auctions ≡ s.auctions)
        × (s'.sent ≡ s.sent)
