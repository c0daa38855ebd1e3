-- ===== src/Stake/History.antt =====
-- Any history of staking actions at any times, contracts/eosio.system/src/delegate_bandwidth.cpp:
-- `delegatebw`, `undelegatebw` and `refund` in any order.
use eosio_system.Base.{ℕ, ◌≡◌, Bool, false, ◌==◌, ok}
use eosio_system.Base.Int.{ℤ, ◌+ℤ◌, int_laws, parts_eq, eq_of_parts}
use eosio_system.Host.{Host, Name, Asset, HasAssets, stake_account}
use eosio_system.State.{State}
use eosio_system.Votes.{Votes}
use eosio_system.Stake.Change.{delegatebw, undelegatebw, refund}
use eosio_system.Stake.Sums.{staked_in}
use eosio_system.Stake.Conserved.{owed, delegatebw-owed, undelegatebw-owed, refund-owed}

-- The chain at another time.
abbrev pub later : Host → ℕ → Host
later host t = record host { now = t }

later-HasAssets : (host : Host) (t : ℕ) → HasAssets host → HasAssets (later host t)
later-HasAssets host t laws = record {
  asset_add_ok = laws.asset_add_ok;
  asset_sub_ok = laws.asset_sub_ok;
  asset_le_ok = laws.asset_le_ok;
}

-- One action that does not abort. The account of all stake does not act itself.
pub data Staking (host : Host) (votes : (t : ℕ) → Votes (later host t))
    : State host.F → State host.F → Type 0 where
  delegated :
      (t : ℕ) (from receiver : Name) (net cpu : Asset) (transfer : Bool) {s s' : State host.F}
      → delegatebw (later host t) (votes t) from receiver net cpu transfer s ≡ ok s'
      → (stake_account == from) ≡ false
      → Staking host votes s s'
  undelegated :
      (t : ℕ) (from receiver : Name) (net cpu : Asset) {s s' : State host.F}
      → undelegatebw (later host t) (votes t) from receiver net cpu s ≡ ok s'
      → (stake_account == from) ≡ false
      → Staking host votes s s'
  refunded :
      (t : ℕ) (owner : Name) {s s' : State host.F}
      → refund (later host t) owner s ≡ ok s'
      → (stake_account == owner) ≡ false
      → Staking host votes s s'

pub data History (host : Host) (votes : (t : ℕ) → Votes (later host t)) (s : State host.F)
    : State host.F → Type 0 where
  begun : History host votes s s
  next :
      {t u : State host.F}
      → History host votes s t
      → Staking host votes t u
      → History host votes s u

-- The account of all stake, which held `held` before the actions sent, covers what users are owed.
abbrev pub IsBacked : {F : Type 0} → ℤ → State F → Type 0
IsBacked held s = owed s ≡ held +ℤ staked_in s.sent

module _ (host : Host) (laws : HasAssets host) (votes : (t : ℕ) → Votes (later host t)) where
  open host use {F}

  Staking-owed :
      {s s' : State F}
      → Staking host votes s s'
      → owed s' +ℤ staked_in s.sent ≡ owed s +ℤ staked_in s'.sent
  Staking-owed {s} {s'} (delegated t from receiver net cpu transfer h other) =
      delegatebw-owed (later host t) (later-HasAssets host t laws) (votes t) from receiver net cpu
        transfer s s' h other
  Staking-owed {s} {s'} (undelegated t from receiver net cpu h other) =
      undelegatebw-owed (later host t) (later-HasAssets host t laws) (votes t) from receiver net cpu
        s s' h other
  Staking-owed {s} {s'} (refunded t owner h other) =
      refund-owed (later host t) (later-HasAssets host t laws) owner s s' h other

  -- Over any history of `delegatebw`, `undelegatebw` and `refund` at any times, by accounts other than
  -- the account of all stake, that account covers what users are owed: the weights of all totals and
  -- the amounts of all refunds stay equal to what it held before and what the transfers sent have
  -- brought in, less what they have taken out.
  pub History-IsBacked :
      {s s' : State F} (held : ℤ) → History host votes s s' → IsBacked held s → IsBacked held s'
  History-IsBacked held begun h = h
  History-IsBacked held (next history step) h =
      let before = History-IsBacked held history h in
      eq_of_parts _ _ (omega (int_laws, parts_eq _ _ before, parts_eq _ _ (Staking-owed step)))
