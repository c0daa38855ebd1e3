-- ===== src/Settings.antt =====
-- Privileged settings of the resources of an account, contracts/eosio.system/src/eosio.system.cpp:
-- `setalimits`, `setacctram`, `setacctnet`, `setacctcpu`.
pub mod Managed
use eosio_system.Base.{
  ℕ, zero, suc, ◌+◌, ◌-◌, ◌*◌, ◌/◌, ◌%◌, ◌^◌, ◌≤◌, ◌<◌, ◌≡◌, ◌≢◌, ◌↔◌, ◌⊎◌, ◌∙◌, refl, sym, ap, inl,
  inr, Bool, true, false, not, ◌&&◌, ◌||◌, Option, none, some, List, [], ◌∷◌, ◌++◌, arith, ltb, leb,
  ◌==◌, if◌then◌else◌, Bool-cases, Option-cases, Result, ok, err, ◌>>=◌, ◌>>◌, check, require,
  >>=-eq-ok, >>-eq-ok, check-eq-ok, Result-cases, length, All, String,
}
use eosio_system.Base.Int.{
  ℤ, pos, negsuc, pos_part, neg_part, sub_ℕ, ◌+ℤ◌, ◌-ℤ◌, ◌*ℤ◌, neg_ℤ, ◌≤ℤ◌, ◌<ℤ◌, ltb_ℤ, leb_ℤ,
  eqb_ℤ, min_ℤ, max_ℤ, abs_ℤ, quot, rem, u128, i64, int_laws, parts_eq, +ℤ_parts, -ℤ_parts,
  eq_of_parts, sub_zero, sub_add, add_sub, eqb_refl, leb_true, +ℤ_pos, -ℤ_pos, i64_small,
  u128_small, eq_pos,
}
use eosio_system.Host.{
  Host, Name, is_set, Symbol, Asset, asset, add_amount, sub_amount, set_amount, Sent, Double,
  HasAssets, require_auth, now_sec, core, seconds_per_day, seconds_per_hour, seconds_per_year,
  useconds_per_day, useconds_per_year, blocks_per_day, end_of_days, rex_account, names_account,
  stake_account, ram_account, ramfee_account, saving_account, bpay_account, vpay_account,
  reserv_account, eosio, b1,
}
use eosio_system.State.{
  State, send, RexPool, RexReturnPool, Buckets, RexBalance, RexLoan, RexOrder, RexTables,
  UserResources, DelegatedBandwidth, RefundRequest, Limits, StakeTables, resources_empty,
  delegation_empty, refund_empty, VoterInfo, ProducerInfo, ProducerInfo2, VoteTables, PayTables,
  ExchangeState, RamTables, NameBid, NameTables,
}
use eosio_system.Table.{
  Table, find, put, erase, first, find-put, find-erase_ne, sorted, begin, begin-find,
}
use eosio_system.Table.Sum.{sum, amount_at, sum-put, sum-erase}
use eosio_system.Resources.{
  has_field, set_field, is_managed, set_limits, ram_managed, net_managed, cpu_managed,
}
use eosio_system.Ram.{ram_gift_bytes}

module _ (host : Host) where
  open host use {F, self, of_int}

  -- Whether the contract leaves some resource of an account alone.
  abbrev pub any_managed : Name → State F → Bool
  any_managed account s =
      is_managed host ram_managed account s
      || (is_managed host net_managed account s || is_managed host cpu_managed account s)

  unfoldable pub setalimits : Name → ℤ → ℤ → ℤ → State F → Result (State F)
  setalimits account ram net cpu s = do
    require_auth host self
    check (elim (find account s.stake.userres) [ none ↦ true | some r ↦ false ])
        "only supports unlimited accounts"
    check (not (any_managed account s)) "cannot use setalimits on an account with managed resources"
    ok (set_limits host account (record { ram = ram; net = net; cpu = cpu }) s)

  -- The row of a voter with one flag changed; a row that is created has no stake and no vote.
  unfoldable pub flagged : ℕ → Bool → Option (VoterInfo F) → VoterInfo F
  unfolding set_field
  flagged field value (some v) = record v { flags1 = set_field v.flags1 field value }
  flagged field value none = record {
    proxy = 0;
    producers = [];
    staked = pos 0;
    last_vote_weight = of_int (pos 0);
    proxied_vote_weight = of_int (pos 0);
    is_proxy = false;
    flags1 = set_field 0 field value;
  }

  unfoldable pub flag : ℕ → Bool → Name → State F → State F
  unfolding flagged
  flag field value account s = record s {
    voting = record s.voting {
      voters = put account (flagged field value (find account s.voting.voters)) s.voting.voters;
    };
  }

  -- What the row of an account gives it, where it has one.
  abbrev pub own : (UserResources → ℤ) → Name → State F → ℤ
  own amount account s = elim (find account s.stake.userres) [ none ↦ pos 0 | some r ↦ amount r ]

  unfoldable pub setacctram : Name → Option ℤ → State F → Result (State F)
  unfolding flag
  setacctram account none s = do
    require_auth host self
    check (is_managed host ram_managed account s) "RAM of account is already unmanaged"
    let ram = ram_gift_bytes +ℤ own (λ r. r.ram_bytes) account s
    ok (
        set_limits host account (record (s.stake.limits account) { ram = ram })
          (flag ram_managed false account s))
  setacctram account (some ram) s = do
    require_auth host self
    check (leb_ℤ (pos 0) ram) "not allowed to set RAM limit to unlimited"
    ok (
        set_limits host account (record (s.stake.limits account) { ram = ram })
          (flag ram_managed true account s))

  unfoldable pub setacctnet : Name → Option ℤ → State F → Result (State F)
  unfolding flag
  setacctnet account none s = do
    require_auth host self
    check (is_managed host net_managed account s)
        "Network bandwidth of account is already unmanaged"
    let net = own (λ r. r.net_weight.amount) account s
    ok (
        set_limits host account (record (s.stake.limits account) { net = net })
          (flag net_managed false account s))
  setacctnet account (some net) s = do
    require_auth host self
    check (leb_ℤ (negsuc 0) net) "invalid value for net_weight"
    ok (
        set_limits host account (record (s.stake.limits account) { net = net })
          (flag net_managed true account s))

  unfoldable pub setacctcpu : Name → Option ℤ → State F → Result (State F)
  unfolding flag
  setacctcpu account none s = do
    require_auth host self
    check (is_managed host cpu_managed account s) "CPU bandwidth of account is already unmanaged"
    let cpu = own (λ r. r.cpu_weight.amount) account s
    ok (
        set_limits host account (record (s.stake.limits account) { cpu = cpu })
          (flag cpu_managed false account s))
  setacctcpu account (some cpu) s = do
    require_auth host self
    check (leb_ℤ (negsuc 0) cpu) "invalid value for cpu_weight"
    ok (
        set_limits host account (record (s.stake.limits account) { cpu = cpu })
          (flag cpu_managed true account s))
