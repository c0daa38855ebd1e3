-- ===== src/State.antt =====
-- The state of the contract: the tables by component, and the actions sent so far. The singletons
-- `global`, `global2` and `global3` are taken apart: each of their fields stands with its component.
mod RexRows
mod StakeRows
mod OtherRows
pub use RexRows.*
pub use StakeRows.*
pub use OtherRows.*
use eosio_system.Base.{ℕ, List, [], ◌∷◌, ◌++◌}
use eosio_system.Host.{Sent}
use eosio_system.Table.{Table}

pub record State (F : Type 0) : Type 0 where
  pub rex : RexTables
  pub stake : StakeTables
  pub voting : VoteTables F
  pub pay : PayTables F
  pub ram : RamTables
  pub auctions : NameTables
  pub sent : List Sent

-- Sends an inline or deferred action.
abbrev pub send : {F : Type 0} → Sent → State F → State F
send a s = record s { sent = s.sent ++ (a ∷ []) }
