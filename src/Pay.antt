-- ===== src/Pay.antt =====
-- The pay of producers, contracts/eosio.system/src/producer_pay.cpp: `claimrewards`.
pub mod Inflation
pub mod Accounts
pub mod Claims
use eosio_system.Base.{
  ℕ, zero, suc, ◌+◌, ◌-◌, ◌*◌, ◌/◌, ◌%◌, ◌^◌, ◌≤◌, ◌<◌, ◌≡◌, ◌≢◌, ◌↔◌, ◌⊎◌, ◌∙◌, refl, sym, ap, inl,
  inr, Bool, true, false, not, ◌&&◌, ◌||◌, Option, none, some, List, [], ◌∷◌, ◌++◌, arith, ltb, leb,
  ◌==◌, if◌then◌else◌, Bool-cases, Option-cases, Result, ok, err, ◌>>=◌, ◌>>◌, check, require,
  >>=-eq-ok, >>-eq-ok, check-eq-ok, Result-cases, length, All, String,
}
use eosio_system.Base.Int.{
  ℤ, pos, negsuc, pos_part, neg_part, sub_ℕ, ◌+ℤ◌, ◌-ℤ◌, ◌*ℤ◌, neg_ℤ, ◌≤ℤ◌, ◌<ℤ◌, ltb_ℤ, leb_ℤ,
  eqb_ℤ, min_ℤ, max_ℤ, abs_ℤ, quot, rem, u128, i64, int_laws, parts_eq, +ℤ_parts, -ℤ_parts,
  eq_of_parts, sub_zero, sub_add, add_sub, eqb_refl, leb_true, +ℤ_pos, -ℤ_pos, i64_small,
  u128_small, eq_pos,
}
use eosio_system.Host.{
  Host, Name, is_set, Symbol, Asset, asset, add_amount, sub_amount, set_amount, Sent, Double,
  HasAssets, require_auth, now_sec, core, seconds_per_day, seconds_per_hour, seconds_per_year,
  useconds_per_day, useconds_per_year, blocks_per_day, end_of_days, rex_account, names_account,
  stake_account, ram_account, ramfee_account, saving_account, bpay_account, vpay_account,
  reserv_account, eosio, b1,
}
use eosio_system.State.{
  State, send, RexPool, RexReturnPool, Buckets, RexBalance, RexLoan, RexOrder, RexTables,
  UserResources, DelegatedBandwidth, RefundRequest, Limits, StakeTables, resources_empty,
  delegation_empty, refund_empty, VoterInfo, ProducerInfo, ProducerInfo2, VoteTables, PayTables,
  ExchangeState, RamTables, NameBid, NameTables,
}
use eosio_system.Table.{
  Table, find, put, erase, first, find-put, find-erase_ne, sorted, begin, begin-find,
}
use eosio_system.Table.Sum.{sum, amount_at, sum-put, sum-erase}
use eosio_system.Voting.Shares.{update_total_votepay_share, update_producer_votepay_share, fzero}

-- `pay_factor_precision` and `min_pervote_daily_pay`
abbrev pub pay_factor_precision : ℕ
pay_factor_precision = 10000

abbrev pub min_pervote_daily_pay : ℤ
min_pervote_daily_pay = pos 1000000

-- `(a * uint128_t(pay_factor_precision)) / factor`, which becomes an `int64_t`
unfoldable pub part_of : ℤ → ℤ → ℤ
part_of a factor = i64 (u128 a * pay_factor_precision % 2 ^ 128 / u128 factor)

-- What new tokens are for.
pub record Split : Type 0 where
  pub to_savings : ℤ
  pub to_per_block_pay : ℤ
  pub to_per_vote_pay : ℤ

unfoldable pub split_inflation : ℤ → ℤ → ℤ → Split
unfolding part_of
split_inflation new_tokens inflation_pay_factor votepay_factor =
    let to_producers = part_of new_tokens inflation_pay_factor in
    let to_per_block_pay = part_of to_producers votepay_factor in
    record {
      to_savings = new_tokens -ℤ to_producers;
      to_per_block_pay = to_per_block_pay;
      to_per_vote_pay = to_producers -ℤ to_per_block_pay;
    }

abbrev pub set_pay : {F : Type 0} → PayTables F → State F → State F
set_pay p s = record s { pay = p }

module _ (host : Host) where
  open host use {F, now, self, of_int, fadd, fmul, fdiv, flt, fle, to_i64}

  abbrev pub send_positive : Name → Name → ℤ → State F → State F
  send_positive from to amount s =
      if ltb_ℤ (pos 0) amount then send (Sent.transfer from to (core host amount)) s else s

  -- The new tokens are issued and paid out to the three accounts.
  unfoldable pub issue_tokens : ℤ → Split → State F → State F
  issue_tokens new_tokens p s =
      if ltb_ℤ (pos 0) new_tokens
      then send_positive self vpay_account p.to_per_vote_pay (
          send_positive self bpay_account p.to_per_block_pay (
            send_positive self saving_account p.to_savings
              (send (Sent.issue self (core host new_tokens)) s)))
      else s

  -- The buckets are filled with the inflation since they were filled last. The supply of the token and
  -- the part of the inflation that does not go to pools come from outside.
  unfoldable pub fill_buckets : ℤ → F → State F → Result (State F)
  unfolding issue_tokens split_inflation
  fill_buckets token_supply transition s =
      let usecs_since_last_fill = pos now -ℤ pos s.pay.last_pervote_bucket_fill in
      if ltb_ℤ (pos 0) usecs_since_last_fill && ltb 0 s.pay.last_pervote_bucket_fill
      then (do
        let additional_inflation =
            fdiv
              (fmul (fmul (fmul transition s.pay.continuous_rate) (of_int token_supply))
                (of_int usecs_since_last_fill))
              (of_int (pos useconds_per_year))
        check (fle additional_inflation (of_int (pos (2 ^ 63 - 1 - (2 ^ 10 - 1)))))
            "overflow in calculating new tokens to be issued; inflation rate is too high"
        let new_tokens =
            if flt additional_inflation (fzero host) then pos 0 else to_i64 additional_inflation
        let p = split_inflation new_tokens s.pay.inflation_pay_factor s.pay.votepay_factor
        ok (
            set_pay
              (record s.pay {
                pervote_bucket = s.pay.pervote_bucket +ℤ p.to_per_vote_pay;
                perblock_bucket = s.pay.perblock_bucket +ℤ p.to_per_block_pay;
                last_pervote_bucket_fill = now;
              })
              (issue_tokens new_tokens p s)))
      else ok s

  -- The part of the producer in the bucket for blocks. The product is an `int64_t`.
  unfoldable pub block_pay : ProducerInfo F → PayTables F → ℤ
  block_pay prod p =
      if ltb 0 p.total_unpaid_blocks
      then quot (i64 (u128 (p.perblock_bucket *ℤ pos prod.unpaid_blocks))) p.total_unpaid_blocks
      else pos 0

  -- The part in the bucket for votes: by share, or by votes before the first revision.
  unfoldable pub vote_amount : Bool → F → ProducerInfo F → PayTables F → F → F → ℤ
  vote_amount crossed_threshold share prod p total_share total_weight =
      let bucket = p.pervote_bucket in
      let by_share = to_i64 (fdiv (fmul share (of_int bucket)) total_share) in
      if ltb 0 p.revision
      then (if flt (fzero host) total_share && not crossed_threshold
          then (if ltb_ℤ bucket by_share then bucket else by_share)
          else pos 0)
      else (if flt (fzero host) total_weight
          then to_i64 (fdiv (fmul (of_int bucket) prod.total_votes) total_weight)
          else pos 0)

  -- What is paid for votes, and the tables. A small amount is not paid.
  unfoldable pub vote_pay :
      Bool → F → ProducerInfo F → PayTables F → VoteTables F → ℤ × VoteTables F
  unfolding vote_amount
  vote_pay crossed_threshold share prod p t =
      let t' =
        if ltb 0 p.revision
        then update_total_votepay_share host (fzero host) (fzero host) t
        else t in
      let amount =
        vote_amount crossed_threshold share prod p t'.total_producer_votepay_share
          t.total_producer_vote_weight in
      (if ltb_ℤ amount min_pervote_daily_pay then pos 0 else amount, t')

  -- Whether the share was updated since; a row that is missing counts as updated.
  abbrev is_updated : ℕ → Option (ProducerInfo2 F) → Bool
  is_updated since none = true
  is_updated since (some p) = leb since p.last_votepay_share_update

  -- The row of the share, which is created when it is missing.
  abbrev share_row : Option (ProducerInfo2 F) → ProducerInfo2 F
  share_row none = record { votepay_share = fzero host; last_votepay_share_update = now }
  share_row (some p) = p

  -- The tables after a claim of `per_block` and `per_vote`.
  unfoldable pub claimed :
      Name → ProducerInfo F → ℤ → ℤ → F → Bool → VoteTables F → State F → State F
  claimed owner prod per_block per_vote new_votepay_share updated_after_threshold t s =
      let t' =
        update_total_votepay_share host (host.fneg new_votepay_share)
          (if updated_after_threshold then prod.total_votes else fzero host) t in
      record s {
        pay = record s.pay {
          pervote_bucket = s.pay.pervote_bucket -ℤ per_vote;
          perblock_bucket = s.pay.perblock_bucket -ℤ per_block;
          total_unpaid_blocks = (s.pay.total_unpaid_blocks + 2 ^ 32 - prod.unpaid_blocks) % 2 ^ 32;
        };
        voting = record t' {
          producers =
              put owner (record prod { last_claim_time = now; unpaid_blocks = 0 }) t'.producers;
        };
      }

  -- The claim itself, once the buckets are filled.
  unfoldable pub pay_producer : Name → ProducerInfo F → State F → State F
  unfolding block_pay vote_pay claimed
  pay_producer owner prod s =
      let last_claim_plus_3days = prod.last_claim_time + 3 * useconds_per_day in
      let crossed_threshold = leb last_claim_plus_3days now in
      let row = find owner s.voting.producers2 in
      let updated_after_threshold = is_updated last_claim_plus_3days row in
      let per_block = block_pay prod s.pay in
      let out =
        update_producer_votepay_share host
          (if updated_after_threshold then fzero host else prod.total_votes) true (share_row row) in
      let t = record s.voting { producers2 = put owner out.1 s.voting.producers2 } in
      let voted = vote_pay crossed_threshold out.0 prod s.pay t in
      send_positive vpay_account owner voted.0 (
        send_positive bpay_account owner per_block
          (claimed owner prod per_block voted.0 out.0 updated_after_threshold voted.1 s))

  unfoldable pub claimrewards : ℤ → F → Name → State F → Result (State F)
  unfolding fill_buckets pay_producer
  claimrewards token_supply transition owner s = do
    require_auth host owner
    prod ← require (find owner s.voting.producers) "unable to find key"
    check prod.is_active "producer does not have an active key"
    check (not (s.voting.thresh_activated_stake_time == 0))
        "cannot claim rewards until the chain is activated"
    check (ltb_ℤ (pos useconds_per_day) (pos now -ℤ pos prod.last_claim_time))
        "already claimed rewards within past day"
    s1 ← fill_buckets token_supply transition s
    ok (pay_producer owner prod s1)
