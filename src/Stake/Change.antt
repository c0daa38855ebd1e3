-- ===== src/Stake/Change.antt =====
-- Staking and unstaking, contracts/eosio.system/src/delegate_bandwidth.cpp: `changebw` and its parts.
use eosio_system.Base.{
  ℕ, ◌+◌, ◌*◌, Bool, false, not, ◌&&◌, ◌||◌, Option, none, some, leb, ◌==◌, if◌then◌else◌, Result,
  ok, ◌>>=◌, ◌>>◌, check, require,
}
use eosio_system.Base.Int.{pos, ◌+ℤ◌, neg_ℤ, ltb_ℤ, leb_ℤ, eqb_ℤ, max_ℤ, abs_ℤ}
use eosio_system.Host.{
  Host, Name, Asset, set_amount, Sent, require_auth, now_sec, core, seconds_per_day, stake_account,
}
use eosio_system.State.{
  State, send, UserResources, DelegatedBandwidth, RefundRequest, resources_empty, delegation_empty,
  refund_empty,
}
use eosio_system.Table.{Table, find, put, erase}
use eosio_system.Resources.{
  is_managed, set_limits, set_userres, ram_managed, net_managed, cpu_managed,
}
use eosio_system.Ram.{ram_gift_bytes}
use eosio_system.Votes.{Votes}
use eosio_system.Rex.Account.{update_rex_stake}
use eosio_system.Stake.VotingPower.{update_voting_power}

abbrev pub neg_asset : Asset → Asset
neg_asset a = record a { amount = neg_ℤ a.amount }

abbrev pub refund_delay_sec : ℕ
refund_delay_sec = 3 * seconds_per_day

abbrev pub set_delegations : {F : Type 0} → Name → Table DelegatedBandwidth → State F → State F
set_delegations owner t s = record s {
  stake = record s.stake { delband = λ a. if a == owner then t else s.stake.delband a };
}

-- A row that may be gone.
unfoldable pub store_row {ℓ} : {V : Type ℓ} → ℕ → Option V → Table V → Table V
store_row k none t = erase k t
store_row k (some v) t = put k v t

module _ (host : Host) where
  open host use {F, core_symbol, asset_add, asset_sub, asset_le}

  -- The row of a delegation, as `emplace` or `modify` leaves it.
  unfoldable pub more_delegated :
      Asset → Asset → Option DelegatedBandwidth → Result DelegatedBandwidth
  more_delegated net cpu none = ok (record { net_weight = net; cpu_weight = cpu })
  more_delegated net cpu (some d) = do
    n ← asset_add d.net_weight net
    c ← asset_add d.cpu_weight cpu
    ok (record { net_weight = n; cpu_weight = c })

  unfoldable pub move_delegation :
      Asset → Asset → Name → Table DelegatedBandwidth → Result (Table DelegatedBandwidth)
  unfolding more_delegated store_row
  move_delegation net cpu receiver t = do
    d ← more_delegated net cpu (find receiver t)
    check (leb_ℤ (pos 0) d.net_weight.amount) "insufficient staked net bandwidth"
    check (leb_ℤ (pos 0) d.cpu_weight.amount) "insufficient staked cpu bandwidth"
    ok (store_row receiver (if delegation_empty d then none else some d) t)

  -- The row of the totals of the receiver.
  unfoldable pub more_total : Asset → Asset → Option UserResources → Result UserResources
  more_total net cpu none = ok (record { net_weight = net; cpu_weight = cpu; ram_bytes = pos 0 })
  more_total net cpu (some r) = do
    n ← asset_add r.net_weight net
    c ← asset_add r.cpu_weight cpu
    ok (record r { net_weight = n; cpu_weight = c })

  -- The limits of the receiver that are not managed by hand.
  unfoldable pub limit_all : Name → UserResources → State F → State F
  limit_all receiver tot s =
      let l = s.stake.limits receiver in
      let ram_kept = is_managed host ram_managed receiver s in
      let net_kept = is_managed host net_managed receiver s in
      let cpu_kept = is_managed host cpu_managed receiver s in
      if net_kept && cpu_kept
      then s
      else set_limits host receiver
          (record {
            ram = if ram_kept then l.ram else max_ℤ (tot.ram_bytes +ℤ ram_gift_bytes) l.ram;
            net = if net_kept then l.net else tot.net_weight.amount;
            cpu = if cpu_kept then l.cpu else tot.cpu_weight.amount;
          })
          s

  unfoldable pub move_total : Asset → Asset → Name → State F → Result (State F)
  unfolding more_total limit_all store_row
  move_total net cpu receiver s = do
    tot ← more_total net cpu (find receiver s.stake.userres)
    check (leb_ℤ (pos 0) tot.net_weight.amount) "insufficient staked total net bandwidth"
    check (leb_ℤ (pos 0) tot.cpu_weight.amount) "insufficient staked total cpu bandwidth"
    let row = if resources_empty tot then none else some tot
    ok (set_userres host (store_row receiver row s.stake.userres) (limit_all receiver tot s))

  -- What is left to pay of a change, and of a refund, when one is set off against the other.
  unfoldable pub set_off : Asset → Asset → Result (Asset × Asset)
  set_off balance amount = do
    left ← asset_sub amount balance
    ok (
        if ltb_ℤ left.amount (pos 0)
        then (neg_asset left, set_amount left (pos 0))
        else (set_amount balance (pos 0), left))

  -- The part of a change that is unstaked goes into a new refund.
  unfoldable pub give_back : Asset → Asset × Asset
  give_back balance =
      if ltb_ℤ balance.amount (pos 0)
      then (set_amount balance (pos 0), neg_asset balance)
      else (balance, core host (pos 0))

  -- What is left to pay for both resources, and the refund.
  unfoldable pub settle_refund :
      Asset → Asset → Option RefundRequest → Result (Asset × Asset × Option RefundRequest)
  unfolding set_off give_back
  settle_refund net cpu (some r) = do
    n ← set_off net r.net_amount
    c ← set_off cpu r.cpu_amount
    check (leb_ℤ (pos 0) (n.1).amount) "negative net refund amount"
    check (leb_ℤ (pos 0) (c.1).amount) "negative cpu refund amount"
    let unstaked = ltb_ℤ net.amount (pos 0) || ltb_ℤ cpu.amount (pos 0)
    let r' = record r {
      request_time = if unstaked then now_sec host else r.request_time;
      net_amount = n.1;
      cpu_amount = c.1;
    }
    ok (n.0, c.0, if refund_empty r' then none else some r')
  settle_refund net cpu none =
      let n = give_back net in
      let c = give_back cpu in
      if ltb_ℤ net.amount (pos 0) || ltb_ℤ cpu.amount (pos 0)
      then ok (
        n.0,
        c.0,
        some (record { request_time = now_sec host; net_amount = n.1; cpu_amount = c.1 }),
      )
      else ok (net, cpu, none)

  -- The deferred action that pays a refund out, which replaces the one before.
  abbrev pub defer_refund : Name → Option RefundRequest → State F → State F
  defer_refund from none s = send (Sent.cancel_deferred from) s
  defer_refund from (some r) s =
      send (Sent.deferred_refund from refund_delay_sec) (send (Sent.cancel_deferred from) s)

  -- The refund and the payment for a change that does not come from the account of all stake.
  unfoldable pub pay_change : Name → Name → Bool → Asset → Asset → State F → Result (State F)
  unfolding settle_refund store_row
  pay_change source from applies net cpu s = do
    let req = find from s.stake.refunds
    out ← (if applies then settle_refund net cpu req else ok (net, cpu, req))
    let refunds = store_row from out.2 s.stake.refunds
    let s1 = record s { stake = record s.stake { refunds = refunds } }
    let s2 = defer_refund from (if applies then out.2 else none) s1
    amount ← asset_add out.0 out.1
    ok (
        if ltb_ℤ (pos 0) amount.amount
        then send (Sent.transfer source stake_account amount) s2
        else s2)

  module _ (votes : Votes host) where
    -- `changebw` once it is known whose tokens are staked for whom.
    unfoldable pub change_stake :
        Name → Name → Name → Bool → Asset → Asset → Asset → State F → Result (State F)
    unfolding move_delegation move_total pay_change
    change_stake source from receiver transfer net cpu total s = do
      d ← move_delegation net cpu receiver (s.stake.delband from)
      s1 ← move_total net cpu receiver (set_delegations from d s)
      let undelegating = ltb_ℤ (net.amount +ℤ cpu.amount) (pos 0)
      let to_self = not transfer && from == receiver
      s2 ←
          (if stake_account == source
            then ok s1
            else pay_change source from (to_self || undelegating) net cpu s1)
      s3 ← update_rex_stake from s2
      update_voting_power host votes from total s3

    unfoldable pub changebw : Name → Name → Asset → Asset → Bool → State F → Result (State F)
    unfolding change_stake
    changebw from receiver net cpu transfer s = do
      require_auth host from
      check (not (eqb_ℤ net.amount (pos 0)) || not (eqb_ℤ cpu.amount (pos 0)))
          "should stake non-zero amount"
      total ← asset_add net cpu
      check (leb_ℤ (max_ℤ (abs_ℤ net.amount) (abs_ℤ cpu.amount)) (abs_ℤ total.amount))
          "net and cpu deltas cannot be opposite signs"
      change_stake from (if transfer then receiver else from) receiver transfer net cpu total s

    unfoldable pub delegatebw : Name → Name → Asset → Asset → Bool → State F → Result (State F)
    unfolding changebw
    delegatebw from receiver net cpu transfer s = do
      cpu_ok ← asset_le (core host (pos 0)) cpu
      check cpu_ok "must stake a positive amount"
      net_ok ← asset_le (core host (pos 0)) net
      check net_ok "must stake a positive amount"
      check (ltb_ℤ (pos 0) (net.amount +ℤ cpu.amount)) "must stake a positive amount"
      check (not transfer || not (from == receiver))
          "cannot use transfer flag if delegating to self"
      changebw from receiver net cpu transfer s

    unfoldable pub undelegatebw : Name → Name → Asset → Asset → State F → Result (State F)
    unfolding changebw
    undelegatebw from receiver net cpu s = do
      cpu_ok ← asset_le (core host (pos 0)) cpu
      check cpu_ok "must unstake a positive amount"
      net_ok ← asset_le (core host (pos 0)) net
      check net_ok "must unstake a positive amount"
      check (ltb_ℤ (pos 0) (cpu.amount +ℤ net.amount)) "must unstake a positive amount"
      changebw from receiver (neg_asset net) (neg_asset cpu) false s

  unfoldable pub refund : Name → State F → Result (State F)
  refund owner s = do
    require_auth host owner
    r ← require (find owner s.stake.refunds) "refund request not found"
    check (leb ((r.request_time + refund_delay_sec) * 1000000) host.now)
        "refund is not available yet"
    amount ← asset_add r.net_amount r.cpu_amount
    let s1 = send (Sent.transfer stake_account owner amount) s
    ok (record s1 { stake = record s1.stake { refunds = erase owner s1.stake.refunds } })
