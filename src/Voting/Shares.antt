-- ===== src/Voting/Shares.antt =====
-- The shares of producers in the pay for votes, contracts/eosio.system/src/voting.cpp:
-- `update_total_votepay_share`, `update_producer_votepay_share`, and what both loops over producers do with
-- them.
use eosio_system.Base.{ℕ, ◌+◌, ◌*◌, Bool, not, ◌&&◌, none, some, ltb, leb, if◌then◌else◌}
use eosio_system.Base.Int.{pos, ◌-ℤ◌}
use eosio_system.Host.{Host, Name, useconds_per_day}
use eosio_system.State.{ProducerInfo2, VoteTables}
use eosio_system.Table.{find, put}

module _ (host : Host) where
  open host use {F, now, of_int, fadd, fsub, fmul, fdiv, flt, fneg}

  abbrev pub fzero : F
  fzero = of_int (pos 0)

  -- `double( (b - a).count() / 1E6 )`
  unfoldable pub seconds_between : ℕ → ℕ → F
  seconds_between a b = fdiv (of_int (pos b -ℤ pos a)) (of_int (pos 1000000))

  -- `total += delta`, but not below 0.
  unfoldable pub add_down_to_zero : F → F → F
  add_down_to_zero total delta =
      if flt delta fzero && flt total (fneg delta) then fzero else fadd total delta

  unfoldable pub update_total_votepay_share : F → F → VoteTables F → VoteTables F
  unfolding seconds_between add_down_to_zero
  update_total_votepay_share additional_shares_delta shares_rate_delta t =
      let grown =
        if ltb t.last_vpay_state_update now
        then fmul t.total_vpay_share_change_rate (seconds_between t.last_vpay_state_update now)
        else fzero in
      record t {
        total_producer_votepay_share =
            add_down_to_zero t.total_producer_votepay_share (fadd grown additional_shares_delta);
        total_vpay_share_change_rate =
            add_down_to_zero t.total_vpay_share_change_rate shares_rate_delta;
        last_vpay_state_update = now;
      }

  -- The new share, which is returned, and the row.
  unfoldable pub update_producer_votepay_share : F → Bool → ProducerInfo2 F → F × ProducerInfo2 F
  unfolding seconds_between
  update_producer_votepay_share shares_rate reset_to_zero p =
      let delta =
        if flt fzero shares_rate && ltb p.last_votepay_share_update now
        then fmul shares_rate (seconds_between p.last_votepay_share_update now)
        else fzero in
      let share = fadd p.votepay_share delta in
      (
        share,
        record p {
          votepay_share = if reset_to_zero then fzero else share;
          last_votepay_share_update = now;
        },
      )

  -- What a loop over producers adds up beside the tables.
  pub record Tally : Type 0 where
    pub tables : VoteTables F
    pub delta_change_rate : F
    pub total_inactive_vpay_share : F

  -- The share of a producer whose votes change by `delta` from `init_total_votes`, if it has one.
  unfoldable pub tally_share : Name → ℕ → F → F → Tally → Tally
  unfolding update_producer_votepay_share
  tally_share producer last_claim_time init_total_votes delta c =
      elim (find producer c.tables.producers2) [
        | none ↦ c
        | some p ↦
            let last_claim_plus_3days = last_claim_time + 3 * useconds_per_day in
            let crossed_threshold = leb last_claim_plus_3days now in
            let updated_after_threshold = leb last_claim_plus_3days p.last_votepay_share_update in
            let out =
              update_producer_votepay_share
                (if updated_after_threshold then fzero else init_total_votes)
                (crossed_threshold && not updated_after_threshold) p in
            let t = record c.tables { producers2 = put producer out.1 c.tables.producers2 } in
            if not crossed_threshold
            then record c { tables = t; delta_change_rate = fadd c.delta_change_rate delta }
            else if not updated_after_threshold
            then record {
              tables = t;
              delta_change_rate = fsub c.delta_change_rate init_total_votes;
              total_inactive_vpay_share = fadd c.total_inactive_vpay_share out.0;
            }
            else record c { tables = t }
      ]

  abbrev pub begin_tally : VoteTables F → Tally
  begin_tally t = record {
    tables = t;
    delta_change_rate = fzero;
    total_inactive_vpay_share = fzero;
  }

  abbrev pub end_tally : Tally → VoteTables F
  end_tally c =
      update_total_votepay_share (fneg c.total_inactive_vpay_share) c.delta_change_rate c.tables
