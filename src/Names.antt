-- ===== src/Names.antt =====
-- The auctions of account names, contracts/eosio.system/src/name_bidding.cpp.
pub mod Escrow
use eosio_system.Base.{
  ℕ, zero, suc, ◌+◌, ◌-◌, ◌*◌, ◌/◌, ◌%◌, ◌^◌, ◌≤◌, ◌<◌, ◌≡◌, ◌≢◌, ◌↔◌, ◌⊎◌, ◌∙◌, refl, sym, ap, inl,
  inr, Bool, true, false, not, ◌&&◌, ◌||◌, Option, none, some, List, [], ◌∷◌, ◌++◌, arith, ltb, leb,
  ◌==◌, if◌then◌else◌, Bool-cases, Option-cases, Result, ok, err, ◌>>=◌, ◌>>◌, check, require,
  >>=-eq-ok, >>-eq-ok, check-eq-ok, Result-cases, length, All, String,
}
use eosio_system.Base.Int.{
  ℤ, pos, negsuc, pos_part, neg_part, sub_ℕ, ◌+ℤ◌, ◌-ℤ◌, ◌*ℤ◌, neg_ℤ, ◌≤ℤ◌, ◌<ℤ◌, ltb_ℤ, leb_ℤ,
  eqb_ℤ, min_ℤ, max_ℤ, abs_ℤ, quot, rem, u128, i64, int_laws, parts_eq, +ℤ_parts, -ℤ_parts,
  eq_of_parts, sub_zero, sub_add, add_sub, eqb_refl, leb_true, +ℤ_pos, -ℤ_pos, i64_small,
  u128_small, eq_pos,
}
use eosio_system.Host.{
  Host, Name, is_set, Symbol, Asset, asset, add_amount, sub_amount, set_amount, Sent, Double,
  HasAssets, require_auth, now_sec, core, seconds_per_day, seconds_per_hour, seconds_per_year,
  useconds_per_day, useconds_per_year, blocks_per_day, end_of_days, rex_account, names_account,
  stake_account, ram_account, ramfee_account, saving_account, bpay_account, vpay_account,
  reserv_account, eosio, b1,
}
use eosio_system.State.{
  State, send, RexPool, RexReturnPool, Buckets, RexBalance, RexLoan, RexOrder, RexTables,
  UserResources, DelegatedBandwidth, RefundRequest, Limits, StakeTables, resources_empty,
  delegation_empty, refund_empty, VoterInfo, VoteTables, ExchangeState, RamTables, NameBid,
  NameTables,
}
use eosio_system.Table.{
  Table, find, put, erase, first, find-put, find-erase_ne, sorted, begin, begin-find,
}
use eosio_system.Table.Sum.{sum, amount_at, sum-put, sum-erase}

-- The bid that is not the highest any more can be claimed back.
abbrev pub set_auctions : {F : Type 0} → NameTables → State F → State F
set_auctions a s = record s { auctions = a }

abbrev pub set_refunds : Name → Table Asset → NameTables → NameTables
set_refunds newname t a = record a { bidrefunds = λ n. if n == newname then t else a.bidrefunds n }

-- `(uint128_t(newname.value) << 64) | high_bidder.value`
abbrev pub deferred_id : Name → Name → ℕ
deferred_id newname bidder = newname * 2 ^ 64 + bidder

module _ (host : Host) where
  open host use {F, now, core_symbol, asset_add, is_account, suffix}

  unfoldable pub check_name : Name → Result (Unit {0})
  check_name newname = do
    check (suffix newname == newname) "you can only bid on top-level suffix"
    check (is_set newname) "the empty name is not a valid account name to bid on"
    check (newname % 16 == 0) "13 character names are not valid account names to bid on"
    check (newname / 16 % 32 == 0)
        "accounts with 12 character names and no dots can be created without bidding required"
    check (not (is_account newname)) "account already exists"

  -- What the highest bidder so far can claim back.
  unfoldable pub add_refund : NameBid → Table Asset → Result (Table Asset)
  add_refund current refunds = elim (find current.high_bidder refunds) [
    | none ↦ ok (put current.high_bidder (core host current.high_bid) refunds)
    | some r ↦ (do
      r' ← asset_add r (core host current.high_bid)
      ok (put current.high_bidder r' refunds))
  ]

  unfoldable pub new_bid : Name → Asset → NameBid
  new_bid bidder bid = record { high_bidder = bidder; high_bid = bid.amount; last_bid_time = now }

  -- A bid on a name that has one.
  unfoldable pub outbid : Name → Name → Asset → NameBid → State F → Result (State F)
  unfolding add_refund new_bid
  outbid bidder newname bid current s = do
    check (ltb_ℤ (pos 0) current.high_bid) "this auction has already closed"
    check (ltb_ℤ (quot current.high_bid 10) (bid.amount -ℤ current.high_bid))
        "must increase bid by 10%"
    check (not (current.high_bidder == bidder)) "account is already highest bidder"
    let a = s.auctions
    refunds ← add_refund current (a.bidrefunds newname)
    let s1 = send (Sent.cancel_deferred (deferred_id newname current.high_bidder)) s
    let s2 = send (Sent.deferred_bidrefund current.high_bidder newname) s1
    let a' = record a { namebids = put newname (new_bid bidder bid) a.namebids }
    ok (set_auctions (set_refunds newname refunds a') s2)

  unfoldable pub place_bid : Name → Name → Asset → State F → Result (State F)
  unfolding outbid
  place_bid bidder newname bid s =
      let a = s.auctions in
      elim (find newname a.namebids) [
        | none ↦
            ok
              (set_auctions (record a { namebids = put newname (new_bid bidder bid) a.namebids }) s)
        | some current ↦ outbid bidder newname bid current s
      ]

  unfoldable pub bidname : Name → Name → Asset → State F → Result (State F)
  unfolding check_name place_bid
  bidname bidder newname bid s = do
    require_auth host bidder
    check_name newname
    check (bid.symbol == core_symbol) "asset must be system token"
    check (ltb_ℤ (pos 0) bid.amount) "insufficient bid"
    place_bid bidder newname bid (send (Sent.transfer bidder names_account bid) s)

  unfoldable pub bidrefund : Name → Name → State F → Result (State F)
  bidrefund bidder newname s = do
    let a = s.auctions
    amount ← require (find bidder (a.bidrefunds newname)) "refund not found"
    let s1 = send (Sent.transfer names_account bidder amount) s
    ok (set_auctions (set_refunds newname (erase bidder (a.bidrefunds newname)) a) s1)
