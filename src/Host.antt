-- ===== src/Host.antt =====
-- What the contract uses of the chain and of the contract library: assets, times, authorisations,
-- accounts, the actions that it sends, and `double`. These stand outside the repository, so the
-- operations that compute are fields of a parameter `Host`, with the laws that are relied on.
mod Time
pub use Time.*
use eosio_system.Base.{
  ℕ, ◌+◌, ◌/◌, ◌%◌, ◌^◌, ◌≡◌, Bool, true, false, Option, List, ◌++◌, [], ◌∷◌, String, Result, ok,
  err, check, ◌==◌, ltb,
}
use eosio_system.Base.Int.{leb_ℤ, ℤ, pos, ◌+ℤ◌, ◌-ℤ◌}

-- `eosio::name`, by its 64-bit value; 0 is the empty name, which stands for "none".
abbrev pub Name : Type 0
Name = ℕ

abbrev pub is_set : Name → Bool
is_set n = ltb 0 n

-- `eosio::symbol`, by its raw code.
abbrev pub Symbol : Type 0
Symbol = ℕ

pub record Asset : Type 0 where
  pub amount : ℤ
  pub symbol : Symbol

-- `asset( amount, symbol )`
abbrev pub asset : ℤ → Symbol → Asset
asset a s = record { amount = a; symbol = s }

-- `x.amount += d` and `x.amount = a`
abbrev pub add_amount : Asset → ℤ → Asset
add_amount x d = record x { amount = x.amount +ℤ d }

abbrev pub sub_amount : Asset → ℤ → Asset
sub_amount x d = record x { amount = x.amount -ℤ d }

abbrev pub set_amount : Asset → ℤ → Asset
set_amount x a = record x { amount = a }

-- Inline and deferred actions, in the order in which they are sent.
pub data Sent : Type 0 where
  transfer : Name → Name → Asset → Sent
  issue : Name → Asset → Sent
  deferred_refund : Name → ℕ → Sent
  deferred_bidrefund : Name → Name → Sent
  cancel_deferred : ℕ → Sent
  buyresult sellresult rentresult : Asset → Sent
  orderresult : Name → Asset → Sent
  token_open : Name → Symbol → Sent

-- `double`: the type and the operations that the code applies to it.
pub record Double : Type 1 where
  pub F : Type 0
  pub of_int : ℤ → F
  pub fadd : F → F → F
  pub fsub : F → F → F
  pub fmul : F → F → F
  pub fdiv : F → F → F
  pub pow : F → F → F
  -- the conversion to `int64_t`
  pub to_i64 : F → ℤ
  pub flt : F → F → Bool
  pub fle : F → F → Bool
  pub fneg : F → F
  pub fabs : F → F

-- What is fixed while an action runs.
pub record Host : Type 1 where
  pub double : Double
  pub open double use *
  -- `current_time_point()`, in microseconds
  pub now : ℕ
  -- `current_block_time().slot`
  pub slot : ℕ
  -- `get_self()`
  pub self : Name
  pub has_auth : Name → Bool
  pub is_account : Name → Bool
  -- `name::suffix`
  pub suffix : Name → Name
  -- the symbol that `core_symbol()` reads from the market that `init` creates
  pub core_symbol : Symbol
  -- `a + b`, `a - b` and `a <= b` on assets: these abort on two symbols or outside the range
  pub asset_add : Asset → Asset → Result Asset
  pub asset_sub : Asset → Asset → Result Asset
  pub asset_le : Asset → Asset → Result Bool

-- The documented behaviour of asset arithmetic, where it does not abort.
pub record HasAssets (host : Host) : Type 0 where
  pub asset_add_ok :
      (a b c : Asset)
      → host.asset_add a b ≡ ok c
      → (c.amount ≡ a.amount +ℤ b.amount) × (c.symbol ≡ a.symbol)
  pub asset_sub_ok :
      (a b c : Asset)
      → host.asset_sub a b ≡ ok c
      → (c.amount ≡ a.amount -ℤ b.amount) × (c.symbol ≡ a.symbol)
  pub asset_le_ok :
      (a b : Asset) (c : Bool) → host.asset_le a b ≡ ok c → c ≡ leb_ℤ a.amount b.amount

module _ (host : Host) where
  open host use {now, has_auth, core_symbol}

  -- `require_auth`
  abbrev pub require_auth : Name → Result (Unit {0})
  require_auth account = check (has_auth account) "missing authority"

  -- `current_time_point().sec_since_epoch()`, also as a `time_point_sec`
  abbrev pub now_sec : ℕ
  now_sec = now / 1000000 % 2 ^ 32

  -- `asset( a, core_symbol() )`
  abbrev pub core : ℤ → Asset
  core a = asset a core_symbol
