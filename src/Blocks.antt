-- ===== src/Blocks.antt =====
-- What every block does, contracts/eosio.system/src/producer_pay.cpp: `onblock`, and the auction of a name that
-- it closes.
pub mod Closing
use eosio_system.Base.{
  ℕ, zero, suc, ◌+◌, ◌-◌, ◌*◌, ◌/◌, ◌%◌, ◌^◌, ◌≤◌, ◌<◌, ◌≡◌, ◌≢◌, ◌↔◌, ◌⊎◌, ◌∙◌, refl, sym, ap, inl,
  inr, Bool, true, false, not, ◌&&◌, ◌||◌, Option, none, some, List, [], ◌∷◌, ◌++◌, arith, ltb, leb,
  ◌==◌, if◌then◌else◌, Bool-cases, Option-cases, Result, ok, err, ◌>>=◌, ◌>>◌, check, require,
  >>=-eq-ok, >>-eq-ok, check-eq-ok, Result-cases, length, All, String,
}
use eosio_system.Base.Int.{
  ℤ, pos, negsuc, pos_part, neg_part, sub_ℕ, ◌+ℤ◌, ◌-ℤ◌, ◌*ℤ◌, neg_ℤ, ◌≤ℤ◌, ◌<ℤ◌, ltb_ℤ, leb_ℤ,
  eqb_ℤ, min_ℤ, max_ℤ, abs_ℤ, quot, rem, u128, i64, int_laws, parts_eq, +ℤ_parts, -ℤ_parts,
  eq_of_parts, sub_zero, sub_add, add_sub, eqb_refl, leb_true, +ℤ_pos, -ℤ_pos, i64_small,
  u128_small, eq_pos,
}
use eosio_system.Host.{
  Host, Name, is_set, Symbol, Asset, asset, add_amount, sub_amount, set_amount, Sent, Double,
  HasAssets, require_auth, now_sec, core, seconds_per_day, seconds_per_hour, seconds_per_year,
  useconds_per_day, useconds_per_year, blocks_per_day, end_of_days, rex_account, names_account,
  stake_account, ram_account, ramfee_account, saving_account, bpay_account, vpay_account,
  reserv_account, eosio, b1,
}
use eosio_system.State.{
  State, send, RexPool, RexReturnPool, Buckets, RexBalance, RexLoan, RexOrder, RexTables,
  UserResources, DelegatedBandwidth, RefundRequest, Limits, StakeTables, resources_empty,
  delegation_empty, refund_empty, VoterInfo, ProducerInfo, ProducerInfo2, VoteTables, PayTables,
  ExchangeState, RamTables, NameBid, NameTables,
}
use eosio_system.Table.{
  Table, find, put, erase, first, find-put, find-erase_ne, sorted, begin, begin-find,
}
use eosio_system.Table.Sum.{sum, amount_at, sum-put, sum-erase}
use eosio_system.Names.{set_auctions}

-- What `onblock` relies on elsewhere: the counts of blocks for pools and the fees for pools in
-- src/staking_pool.cpp, and the schedule of producers in src/voting.cpp.
pub record BlockParts (host : Host) : Type 0 where
  pub onblock_update_pool : ℕ → State host.F → Result (State host.F)
  pub update_elected_producers : ℕ → State host.F → Result (State host.F)
  pub channel_namebid_to_rex_or_pools : ℤ → State host.F → Result (State host.F)
  -- None of them touches the auctions or the time of the activation.
  pub update_pool_frame :
      (slot : ℕ) (s s' : State host.F)
      → onblock_update_pool slot s ≡ ok s'
      → (s'.auctions ≡ s.auctions) × (s'.voting ≡ s.voting)
  pub elected_frame :
      (slot : ℕ) (s s' : State host.F)
      → update_elected_producers slot s ≡ ok s'
      → (s'.auctions ≡ s.auctions) × (s'.voting ≡ s.voting)
  pub channel_namebid_frame :
      (amount : ℤ) (s s' : State host.F)
      → channel_namebid_to_rex_or_pools amount s ≡ ok s'
      → (s'.auctions ≡ s.auctions) × (s'.voting ≡ s.voting)

-- `name_bid::by_high_bid`
unfoldable pub by_high_bid : NameBid → ℕ
by_high_bid b = elim b.high_bid [ pos n ↦ (2 ^ 64 - n) % 2 ^ 64 | negsuc n ↦ suc n ]

-- The rows from a key of an index on.
unfoldable pub rows_from {ℓ} : {V : Type ℓ} → (V → ℕ) → ℕ → Table V → Table V
rows_from key bound [] = []
rows_from key bound ((k, v) ∷ t) =
    let rest = rows_from key bound t in if leb bound (key v) then (k, v) ∷ rest else rest

-- `idx.lower_bound( bound )`, a row that is looked up by its primary key.
abbrev pub row_at {ℓ} : {V : Type ℓ} → Table V → Option (ℕ × V) → Option (ℕ × V)
row_at t none = none
row_at t (some (k, v)) = elim (find k t) [ none ↦ none | some w ↦ some (k, w) ]

unfoldable pub lower_bound {ℓ} : {V : Type ℓ} → (V → ℕ) → ℕ → Table V → Option (ℕ × V)
unfolding rows_from
lower_bound key bound t = row_at t (first key (rows_from key bound t))

-- The slots between two times, a `uint32_t`.
abbrev pub slots_since : ℕ → ℕ → ℕ
slots_since last slot = (slot + 2 ^ 32 - last) % 2 ^ 32

module _ (host : Host) where
  open host use {F, now, self}

  -- A bid is final after a day without a higher one, two weeks after the activation of the chain.
  unfoldable pub is_final : NameBid → ℕ → Bool
  is_final b thresh_activated_stake_time =
      ltb_ℤ (pos 0) b.high_bid
      && (ltb_ℤ (pos useconds_per_day) (pos now -ℤ pos b.last_bid_time)
          && (ltb 0 thresh_activated_stake_time
              && ltb_ℤ (pos (14 * useconds_per_day)) (pos now -ℤ pos thresh_activated_stake_time)))

  -- A new block of a producer that is registered.
  unfoldable pub count_block : Name → State F → State F
  count_block producer s = elim (find producer s.voting.producers) [
    | none ↦ s
    | some p ↦ record s {
      pay = record s.pay { total_unpaid_blocks = (s.pay.total_unpaid_blocks + 1) % 2 ^ 32 };
      voting = record s.voting {
        producers =
            put producer (record p { unpaid_blocks = (p.unpaid_blocks + 1) % 2 ^ 32 })
              s.voting.producers;
      };
    }
  ]

  module _ (parts : BlockParts host) where
    open parts use {onblock_update_pool, update_elected_producers, channel_namebid_to_rex_or_pools}

    -- The auction of a name closes: its bid is paid out, and counts as negative.
    unfoldable pub close_auction : ℕ → Name → NameBid → State F → Result (State F)
    close_auction slot newname b s = do
      s1 ←
          channel_namebid_to_rex_or_pools b.high_bid
            (set_auctions (record s.auctions { last_name_close = slot }) s)
      ok (
          set_auctions
            (record s1.auctions {
              namebids =
                  put newname (record b { high_bid = neg_ℤ b.high_bid }) s1.auctions.namebids;
            })
            s1)

    unfoldable pub close_highest : ℕ → Option (Name × NameBid) → State F → Result (State F)
    unfolding close_auction is_final
    close_highest slot none s = ok s
    close_highest slot (some (newname, b)) s =
        if is_final b s.voting.thresh_activated_stake_time
        then close_auction slot newname b s
        else ok s

    -- Once a minute the producers are chosen, and once a day an auction may close.
    unfoldable pub every_minute : ℕ → State F → Result (State F)
    unfolding close_highest lower_bound by_high_bid
    every_minute slot s =
        if ltb 120 (slots_since s.pay.last_producer_schedule_update slot)
        then (do
          s1 ← update_elected_producers slot s
          if ltb blocks_per_day (slots_since s1.auctions.last_name_close slot)
              then close_highest slot (lower_bound by_high_bid (2 ^ 63 - 1) s1.auctions.namebids) s1
              else ok s1)
        else ok s

    unfoldable pub onblock : ℕ → Name → State F → Result (State F)
    unfolding every_minute count_block
    onblock slot producer s = do
      require_auth host self
      s1 ← onblock_update_pool slot s
      if s1.voting.thresh_activated_stake_time == 0
          then ok s1
          else every_minute slot (
              count_block producer (record s1 {
                pay = record s1.pay {
                  last_pervote_bucket_fill =
                      if s1.pay.last_pervote_bucket_fill == 0
                      then now
                      else s1.pay.last_pervote_bucket_fill;
                };
              }))
