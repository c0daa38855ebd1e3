-- ===== src/Accounts.antt =====
-- New accounts, contracts/eosio.system/src/eosio.system.cpp: `newaccount`.
pub mod Claim
pub mod Dots
use eosio_system.Base.{
  ℕ, zero, suc, ◌+◌, ◌-◌, ◌*◌, ◌/◌, ◌%◌, ◌^◌, ◌≤◌, ◌<◌, ◌≡◌, ◌≢◌, ◌↔◌, ◌⊎◌, ◌∙◌, refl, sym, ap, inl,
  inr, Bool, true, false, not, ◌&&◌, ◌||◌, Option, none, some, List, [], ◌∷◌, ◌++◌, arith, ltb, leb,
  ◌==◌, if◌then◌else◌, Bool-cases, Option-cases, Result, ok, err, ◌>>=◌, ◌>>◌, check, require,
  >>=-eq-ok, >>-eq-ok, check-eq-ok, Result-cases, length, All, String,
}
use eosio_system.Base.Int.{
  ℤ, pos, negsuc, pos_part, neg_part, sub_ℕ, ◌+ℤ◌, ◌-ℤ◌, ◌*ℤ◌, neg_ℤ, ◌≤ℤ◌, ◌<ℤ◌, ltb_ℤ, leb_ℤ,
  eqb_ℤ, min_ℤ, max_ℤ, abs_ℤ, quot, rem, u128, i64, int_laws, parts_eq, +ℤ_parts, -ℤ_parts,
  eq_of_parts, sub_zero, sub_add, add_sub, eqb_refl, leb_true, +ℤ_pos, -ℤ_pos, i64_small,
  u128_small, eq_pos,
}
use eosio_system.Host.{
  Host, Name, is_set, Symbol, Asset, asset, add_amount, sub_amount, set_amount, Sent, Double,
  HasAssets, require_auth, now_sec, core, seconds_per_day, seconds_per_hour, seconds_per_year,
  useconds_per_day, useconds_per_year, blocks_per_day, end_of_days, rex_account, names_account,
  stake_account, ram_account, ramfee_account, saving_account, bpay_account, vpay_account,
  reserv_account, eosio, b1,
}
use eosio_system.State.{
  State, send, RexPool, RexReturnPool, Buckets, RexBalance, RexLoan, RexOrder, RexTables,
  UserResources, DelegatedBandwidth, RefundRequest, Limits, StakeTables, resources_empty,
  delegation_empty, refund_empty, VoterInfo, ProducerInfo, ProducerInfo2, VoteTables, PayTables,
  ExchangeState, RamTables, NameBid, NameTables,
}
use eosio_system.Table.{
  is_new, Table, find, put, erase, first, find-put, find-erase_ne, sorted, begin, begin-find,
}
use eosio_system.Table.Sum.{sum, amount_at, sum-put, sum-erase}
use eosio_system.Names.{set_auctions}
use eosio_system.Resources.{set_limits, set_userres}

-- Whether some of the first `n` characters of a name, from the last on, is a dot.
unfoldable pub has_dot : ℕ → ℕ → Bool
has_dot zero tmp = false
has_dot (suc n) tmp = let rest = has_dot n (tmp / 32) in tmp % 32 == 0 || rest

module _ (host : Host) where
  open host use {F, self, suffix}

  -- The name of a new account is free, or its bid is won, or its suffix is the creator.
  unfoldable pub claim_name : Name → Name → State F → Result (State F)
  claim_name creator newact s =
      if suffix newact == newact
      then (do
        current ← require (find newact s.auctions.namebids) "no active bid for name"
        check (current.high_bidder == creator) "only highest bidder can claim"
        check (ltb_ℤ current.high_bid (pos 0)) "auction for name is not closed yet"
        ok (set_auctions (record s.auctions { namebids = erase newact s.auctions.namebids }) s))
      else (do check (creator == suffix newact) "only suffix may create this account"; ok s)

  abbrev pub no_resources : UserResources
  no_resources = record {
    net_weight = core host (pos 0);
    cpu_weight = core host (pos 0);
    ram_bytes = pos 0;
  }

  -- The row of the resources of the new account, which has no limits to spend. `emplace` aborts on a row
  -- that is there.
  unfoldable pub empty_account : Name → State F → Result (State F)
  empty_account newact s = do
    check (is_new (find newact s.stake.userres)) "a row with this key exists"
    ok (
        set_limits host newact (record { ram = pos 0; net = pos 0; cpu = pos 0 })
          (set_userres host (put newact no_resources s.stake.userres) s))

  unfoldable pub newaccount : Name → Name → State F → Result (State F)
  unfolding claim_name has_dot empty_account
  newaccount creator newact s = do
    s1 ←
        (if not (creator == self) && has_dot 12 (newact / 16)
          then claim_name creator newact s
          else ok s)
    empty_account newact s1
