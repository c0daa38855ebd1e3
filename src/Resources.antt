-- ===== src/Resources.antt =====
-- Resource limits of an account: `update_resource_limits` of contracts/eosio.system/src/rex.cpp, and the
-- flags that take a resource out of the contract's hands.
pub mod Weights
use eosio_system.Base.{
  ℕ, ◌-◌, ◌^◌, ◌≡◌, Bool, true, false, not, ◌&&◌, ◌||◌, Option, none, some, arith, ◌==◌,
  if◌then◌else◌, Result, ok, ◌>>◌, check,
}
use eosio_system.Base.Int.{ℤ, pos, leb_ℤ, eqb_ℤ}
use eosio_system.Host.{Host, Name, add_amount, core}
use eosio_system.State.{State, UserResources, Limits, resources_empty}
use eosio_system.Table.{Table, find, put, erase}
use Prim.Native.Nat.{bit_and, bit_or}

-- `has_field` and `set_field` on a `uint32_t`
unfoldable pub has_field : ℕ → ℕ → Bool
has_field flags field = not (bit_and flags field == 0)

unfoldable pub set_field : ℕ → ℕ → Bool → ℕ
set_field flags field value =
    if value then bit_or flags field else bit_and flags (2 ^ 32 - 1 - field)

-- `voter_info::flags1_fields`
abbrev pub ram_managed : ℕ
ram_managed = 1

abbrev pub net_managed : ℕ
net_managed = 2

abbrev pub cpu_managed : ℕ
cpu_managed = 4

module _ (host : Host) where
  open host use {F}

  -- Whether the resource of an account is managed by hand.
  unfoldable pub is_managed : ℕ → Name → State F → Bool
  unfolding has_field
  is_managed field account s = elim (find account s.voting.voters) [
    | none ↦ false
    | some v ↦ has_field v.flags1 field
  ]

  abbrev pub set_limits : Name → Limits → State F → State F
  set_limits account l s = record s {
    stake = record s.stake { limits = λ a. if a == account then l else s.stake.limits a };
  }

  abbrev pub set_userres : Table UserResources → State F → State F
  set_userres t s = record s { stake = record s.stake { userres = t } }

  -- The row of an account after its weights change, as `emplace` or `modify` leaves it.
  abbrev pub add_weights : Option UserResources → ℤ → ℤ → UserResources
  add_weights none net cpu = record {
    net_weight = core host net;
    cpu_weight = core host cpu;
    ram_bytes = pos 0;
  }
  add_weights (some r) net cpu = record r {
    net_weight = add_amount r.net_weight net;
    cpu_weight = add_amount r.cpu_weight cpu;
  }

  -- The row is erased when it is empty.
  abbrev pub store_resources : Name → UserResources → Table UserResources → Table UserResources
  store_resources account r t = if resources_empty r then erase account t else put account r t

  is_present : Option UserResources → Bool
  is_present none = false
  is_present (some r) = true

  -- `update_resource_limits` where there is something to update.
  unfoldable change_weights : Name → ℤ → ℤ → State F → Result (State F)
  unfolding is_managed is_present
  change_weights receiver delta_net delta_cpu s = do
    let row = find receiver s.stake.userres
    check (is_present row || leb_ℤ (pos 0) delta_net && leb_ℤ (pos 0) delta_cpu)
        "logic error, should not occur"
    let tot = add_weights row delta_net delta_cpu
    check (leb_ℤ (pos 0) tot.net_weight.amount) "insufficient staked total net bandwidth"
    check (leb_ℤ (pos 0) tot.cpu_weight.amount) "insufficient staked total cpu bandwidth"
    let l = s.stake.limits receiver
    let net_kept = is_managed net_managed receiver s
    let cpu_kept = is_managed cpu_managed receiver s
    let limits = record l {
      net = if net_kept then l.net else tot.net_weight.amount;
      cpu = if cpu_kept then l.cpu else tot.cpu_weight.amount;
    }
    let stored = store_resources receiver tot s.stake.userres
    ok (set_userres stored (if net_kept && cpu_kept then s else set_limits receiver limits s))

  unfoldable pub update_resource_limits : Name → Name → ℤ → ℤ → State F → Result (State F)
  unfolding change_weights
  update_resource_limits from receiver delta_net delta_cpu s =
      if eqb_ℤ delta_cpu (pos 0) && eqb_ℤ delta_net (pos 0)
      then ok s
      else change_weights receiver delta_net delta_cpu s

  -- A change of resource limits that does not abort leaves the exchange, the voters, the memory
  -- market, the auctions, what is sent, the delegations and the refunds alone.
  pub update_resource_limits_frame :
      (from receiver : Name) (net cpu : ℤ) (s s' : State F)
      → update_resource_limits from receiver net cpu s ≡ ok s'
      → (s'.rex ≡ s.rex)
        × (s'.voting ≡ s.voting)
        × (s'.ram ≡ s.ram)
        × (s'.auctions ≡ s.auctions)
        × (s'.sent ≡ s.sent)
        × (s'.stake.delband ≡ s.stake.delband)
        × (s'.stake.refunds ≡ s.stake.refunds)
  unfolding update_resource_limits
  update_resource_limits_frame from receiver net cpu s s' h = ground arith
