-- ===== src/Pay/Claims.antt =====
-- What producers are paid, contracts/eosio.system/src/producer_pay.cpp: `claimrewards`.
use eosio_system.Base.{
  lt→ltb, ltb→lt, ok_eq, required, ◌^◌, ℕ, ◌+◌, ◌*◌, ◌/◌, ◌≤◌, ◌<◌, ◌≡◌, ◌∙◌, refl, inl, inr, Bool,
  true, false, not, ◌&&◌, some, arith, ltb, leb, ◌==◌, if◌then◌else◌, Bool-cases, ok, check,
  require, >>=-eq-ok, >>-eq-ok,
}
use eosio_system.Base.Int.{
  i64, u128, i64_small, u128_small, quot, negsuc, ℤ, pos, ◌+ℤ◌, ◌-ℤ◌, ◌*ℤ◌, ◌≤ℤ◌, ltb_ℤ, int_laws,
  parts_eq, eq_of_parts, i64_small, u128_small, ◌<ℤ◌,
}
use eosio_system.Host.{Host, Name, require_auth, useconds_per_day, bpay_account, vpay_account}
use eosio_system.State.{State, ProducerInfo, VoteTables, PayTables}
use eosio_system.Table.{find, put}
use eosio_system.Sends.{net_in}
use eosio_system.Stake.Sums.{not_less}
use eosio_system.Voting.Shares.{update_producer_votepay_share, fzero}
use eosio_system.Pay.{
  min_pervote_daily_pay, send_positive, fill_buckets, block_pay, vote_amount, vote_pay, claimed,
  is_updated, share_row, pay_producer, claimrewards,
}
use eosio_system.Pay.Accounts.{
  HasConversion, IsFunded, send_positive-net_in, send_positive-voting, fill_buckets-IsFunded,
}

mul_pos : (a b : ℕ) → pos a *ℤ pos b ≡ pos (a * b)
unfolding ◌*ℤ◌
mul_pos a b = ground arith

share_small : (n u t : ℕ) → 0 < t → u ≤ t → n * u / t ≤ n
share_small n u t ht le = grind arith

-- An amount within a bucket.
abbrev IsWithin : ℤ → ℤ → Type 0
IsWithin bucket amount = (pos 0 ≤ℤ amount) × (amount ≤ℤ bucket)

part-IsWithin :
    (bucket : ℤ) (u t : ℕ)
    → pos 0 ≤ℤ bucket
    → 0 < t
    → u ≤ t
    → bucket *ℤ pos u <ℤ pos (2 ^ 63)
    → IsWithin bucket (quot (i64 (u128 (bucket *ℤ pos u))) t)
part-IsWithin (negsuc n) u t h ht le fits = absurd (omega (arith, h))
part-IsWithin (pos n) u t h ht le fits =
    let below : n * u < 2 ^ 63 = omega (arith, rw (mul_pos n u) at fits) in
    rw (mul_pos n u, u128_small (n * u) (omega (arith, below)), i64_small (n * u) below)
      (omega arith, omega (arith, share_small n u t ht le))

capped-IsWithin :
    (bucket amount : ℤ)
    → pos 0 ≤ℤ bucket
    → amount ≤ℤ bucket
    → IsWithin bucket (if ltb_ℤ amount min_pervote_daily_pay then pos 0 else amount)
capped-IsWithin bucket amount h le = elim (Bool-cases (ltb_ℤ amount min_pervote_daily_pay)) [
  | inl e ↦ rw e (omega arith, h)
  | inr e ↦ rw e (omega (arith, not_less amount min_pervote_daily_pay e), le)
]

module _ (host : Host) where
  open host use {F, now, self}

  -- The buckets, and the product that the part for blocks is computed from, are within int64.
  pub record FitsInt64 (prod : ProducerInfo F) (p : PayTables F) : Type 0 where
    pub pervote : p.pervote_bucket <ℤ pos (2 ^ 63)
    pub perblock : p.perblock_bucket <ℤ pos (2 ^ 63)
    pub product : p.perblock_bucket *ℤ pos prod.unpaid_blocks <ℤ pos (2 ^ 63)

  block_pay-IsWithin :
      (prod : ProducerInfo F) (p : PayTables F)
      → pos 0 ≤ℤ p.perblock_bucket
      → prod.unpaid_blocks ≤ p.total_unpaid_blocks
      → p.perblock_bucket *ℤ pos prod.unpaid_blocks <ℤ pos (2 ^ 63)
      → IsWithin p.perblock_bucket (block_pay host prod p)
  unfolding block_pay
  block_pay-IsWithin prod p h le fits = elim (Bool-cases (ltb 0 p.total_unpaid_blocks)) [
    | inr e ↦ rw e (omega arith, h)
    | inl e ↦ rw e (
        part-IsWithin p.perblock_bucket prod.unpaid_blocks p.total_unpaid_blocks h
          (ltb→lt 0 p.total_unpaid_blocks e) le fits)
  ]

  vote_amount_capped :
      (crossed : Bool) (share : F) (prod : ProducerInfo F) (p : PayTables F)
      (total_share total_weight : F)
      → pos 0 ≤ℤ p.pervote_bucket
      → 0 < p.revision
      → vote_amount host crossed share prod p total_share total_weight ≤ℤ p.pervote_bucket
  unfolding vote_amount
  vote_amount_capped crossed share prod p total_share total_weight h revised =
      let bucket = p.pervote_bucket in
      let by_share = host.to_i64 (host.fdiv (host.fmul share (host.of_int bucket)) total_share) in
      let shared = host.flt (fzero host) total_share && not crossed in
      elim (Bool-cases shared) [
        | inr e ↦ rw (lt→ltb 0 p.revision revised, e) h
        | inl e ↦ elim (Bool-cases (ltb_ℤ bucket by_share)) [
          | inl e' ↦ rw (lt→ltb 0 p.revision revised, e, e') (omega arith)
          | inr e' ↦ rw (lt→ltb 0 p.revision revised, e, e') (not_less bucket by_share e')
        ]
      ]

  vote_pay-IsWithin :
      (crossed : Bool) (share : F) (prod : ProducerInfo F) (p : PayTables F) (t : VoteTables F)
      → pos 0 ≤ℤ p.pervote_bucket
      → 0 < p.revision
      → IsWithin p.pervote_bucket (vote_pay host crossed share prod p t).0
  unfolding vote_pay
  vote_pay-IsWithin crossed share prod p t h revised =
      capped-IsWithin p.pervote_bucket _ h (vote_amount_capped crossed share prod p _ _ h revised)

  -- Two payments out of the two accounts.
  paid_out :
      (owner : Name) (votes blocks : ℤ) (s s1 s' : State F)
      → s'
        ≡ send_positive host vpay_account owner votes
            (send_positive host bpay_account owner blocks s1)
      → s1.sent ≡ s.sent
      → s1.pay.pervote_bucket ≡ s.pay.pervote_bucket -ℤ votes
      → s1.pay.perblock_bucket ≡ s.pay.perblock_bucket -ℤ blocks
      → (owner == vpay_account) ≡ false
      → (owner == bpay_account) ≡ false
      → IsWithin s.pay.pervote_bucket votes
      → IsWithin s.pay.perblock_bucket blocks
      → (s'.pay.pervote_bucket +ℤ net_in vpay_account s.sent
          ≡ s.pay.pervote_bucket +ℤ net_in vpay_account s'.sent)
        × (s'.pay.perblock_bucket +ℤ net_in bpay_account s.sent
            ≡ s.pay.perblock_bucket +ℤ net_in bpay_account s'.sent)
        × (s'.pay ≡ s1.pay)
  paid_out owner votes blocks s s1 s' result sent ev eb not_vpay not_bpay within_votes
        within_blocks =
      let s2 = send_positive host bpay_account owner blocks s1 in
      let v1 =
        rw not_vpay at
          (send_positive-net_in host vpay_account bpay_account owner blocks s1 within_blocks.0) in
      let v2 =
        rw not_vpay at
          (send_positive-net_in host vpay_account vpay_account owner votes s2 within_votes.0) in
      let b1 =
        rw not_bpay at
          (send_positive-net_in host bpay_account bpay_account owner blocks s1 within_blocks.0) in
      let b2 =
        rw not_bpay at
          (send_positive-net_in host bpay_account vpay_account owner votes s2 within_votes.0) in
      let same =
        (send_positive-voting host vpay_account owner votes s2).1
        ∙ (send_positive-voting host bpay_account owner blocks s1).1 in
      let pv : s'.pay ≡ s1.pay = rw result same in
      let sv : net_in vpay_account s1.sent ≡ net_in vpay_account s.sent = rw sent refl in
      let sb : net_in bpay_account s1.sent ≡ net_in bpay_account s.sent = rw sent refl in
      let votes_left : s'.pay.pervote_bucket ≡ s.pay.pervote_bucket -ℤ votes = rw pv ev in
      let blocks_left : s'.pay.perblock_bucket ≡ s.pay.perblock_bucket -ℤ blocks = rw pv eb in
      let moved_v : net_in vpay_account s'.sent ≡ net_in vpay_account s2.sent +ℤ (pos 0 -ℤ votes) =
        rw result v2 in
      let moved_b : net_in bpay_account s'.sent ≡ net_in bpay_account s2.sent +ℤ (pos 0 -ℤ pos 0) =
        rw result b2 in
      (
        eq_of_parts _ _ (
            omega (
              int_laws,
              parts_eq _ _ v1,
              parts_eq _ _ moved_v,
              parts_eq _ _ sv,
              parts_eq _ _ votes_left,
            )),
        eq_of_parts _ _ (
            omega (
              int_laws,
              parts_eq _ _ b1,
              parts_eq _ _ moved_b,
              parts_eq _ _ sb,
              parts_eq _ _ blocks_left,
            )),
        pv,
      )

  still-IsFunded :
      (p p' : PayTables F) (votes blocks : ℤ)
      → IsFunded p
      → IsWithin p.pervote_bucket votes
      → IsWithin p.perblock_bucket blocks
      → p'.pervote_bucket ≡ p.pervote_bucket -ℤ votes
      → p'.perblock_bucket ≡ p.perblock_bucket -ℤ blocks
      → p'.inflation_pay_factor ≡ p.inflation_pay_factor
      → p'.votepay_factor ≡ p.votepay_factor
      → p'.revision ≡ p.revision
      → IsFunded p'
  still-IsFunded p p' votes blocks funded within_votes within_blocks ev eb ef eg er = record {
    inflation = funded.inflation;
    vote = funded.vote;
    inflation_factor = ef ∙ funded.inflation_factor;
    vote_factor = eg ∙ funded.vote_factor;
    inflation_range = funded.inflation_range;
    vote_range = funded.vote_range;
    votes_left = rw ev (omega (int_laws, within_votes.1));
    blocks_left = rw eb (omega (int_laws, within_blocks.1));
    revised = rw er funded.revised;
  }

  claim_paid :
      (owner : Name) (prod : ProducerInfo F) (votes blocks : ℤ) (share : F) (updated : Bool)
      (t : VoteTables F) (s s' : State F)
      → s'
        ≡ send_positive host vpay_account owner votes (
            send_positive host bpay_account owner blocks
              (claimed host owner prod blocks votes share updated t s))
      → IsFunded s.pay
      → (owner == vpay_account) ≡ false
      → (owner == bpay_account) ≡ false
      → IsWithin s.pay.pervote_bucket votes
      → IsWithin s.pay.perblock_bucket blocks
      → IsFunded s'.pay
        × (s'.pay.pervote_bucket +ℤ net_in vpay_account s.sent
            ≡ s.pay.pervote_bucket +ℤ net_in vpay_account s'.sent)
        × (s'.pay.perblock_bucket +ℤ net_in bpay_account s.sent
            ≡ s.pay.perblock_bucket +ℤ net_in bpay_account s'.sent)
  unfolding claimed
  claim_paid owner prod votes blocks share updated t s s' result funded not_vpay not_bpay
        within_votes within_blocks =
      let s1 = claimed host owner prod blocks votes share updated t s in
      let (paid_votes, paid_blocks, same) =
        paid_out owner votes blocks s s1 s' result refl refl refl not_vpay not_bpay within_votes
          within_blocks in
      (
        rw same (
            still-IsFunded s.pay s1.pay votes blocks funded within_votes within_blocks refl refl
              refl refl refl),
        paid_votes,
        paid_blocks,
      )

  pay_producer-IsFunded :
      (owner : Name) (prod : ProducerInfo F) (s s' : State F)
      → s' ≡ pay_producer host owner prod s
      → IsFunded s.pay
      → prod.unpaid_blocks ≤ s.pay.total_unpaid_blocks
      → FitsInt64 prod s.pay
      → (owner == vpay_account) ≡ false
      → (owner == bpay_account) ≡ false
      → IsFunded s'.pay
        × (s'.pay.pervote_bucket +ℤ net_in vpay_account s.sent
            ≡ s.pay.pervote_bucket +ℤ net_in vpay_account s'.sent)
        × (s'.pay.perblock_bucket +ℤ net_in bpay_account s.sent
            ≡ s.pay.perblock_bucket +ℤ net_in bpay_account s'.sent)
  unfolding pay_producer
  pay_producer-IsFunded owner prod s s' result funded few fits not_vpay not_bpay =
      let since = prod.last_claim_time + 3 * useconds_per_day in
      let row = find owner s.voting.producers2 in
      let updated = is_updated host since row in
      let out =
        update_producer_votepay_share host (if updated then fzero host else prod.total_votes) true
          (share_row host row) in
      let t = record s.voting { producers2 = put owner out.1 s.voting.producers2 } in
      let voted = vote_pay host (leb since now) out.0 prod s.pay t in
      claim_paid owner prod voted.0 (block_pay host prod s.pay) out.0 updated voted.1 s s' result
        funded not_vpay not_bpay
        (vote_pay-IsWithin (leb since now) out.0 prod s.pay t funded.votes_left funded.revised)
        (block_pay-IsWithin prod s.pay funded.blocks_left few fits.product)

  -- A `claimrewards` that does not abort, of a producer with at most all unpaid blocks, after the
  -- first revision, with factors that `setinflation` allows and buckets that are not overdrawn, where
  -- the filled buckets and the product of the one for blocks and the unpaid blocks are within int64,
  -- overdraws neither bucket, and each bucket moves by what transfers bring into the account behind
  -- it. Neither the contract nor the owner is one of the two accounts, and a `double` in the range
  -- that the code has checked converts to a number within int64.
  pub claimrewards-IsFunded :
      (conversion : HasConversion host) (token_supply : ℤ) (transition : F) (owner : Name)
      (s s' : State F)
      → claimrewards host token_supply transition owner s ≡ ok s'
      → IsFunded s.pay
      → ((prod : ProducerInfo F)
          → find owner s.voting.producers ≡ some prod
          → prod.unpaid_blocks ≤ s.pay.total_unpaid_blocks)
      → ((prod : ProducerInfo F) (s1 : State F)
          → find owner s.voting.producers ≡ some prod
          → fill_buckets host token_supply transition s ≡ ok s1
          → FitsInt64 prod s1.pay)
      → (self == vpay_account) ≡ false
      → (self == bpay_account) ≡ false
      → (owner == vpay_account) ≡ false
      → (owner == bpay_account) ≡ false
      → IsFunded s'.pay
        × (s'.pay.pervote_bucket +ℤ net_in vpay_account s.sent
            ≡ s.pay.pervote_bucket +ℤ net_in vpay_account s'.sent)
        × (s'.pay.perblock_bucket +ℤ net_in bpay_account s.sent
            ≡ s.pay.perblock_bucket +ℤ net_in bpay_account s'.sent)
  unfolding claimrewards
  claimrewards-IsFunded conversion token_supply transition owner s s' h funded few fits self_vpay
        self_bpay not_vpay not_bpay =
      let (_, h1) = >>-eq-ok (require_auth host owner) _ h in
      let (prod, e2, h2) =
        >>=-eq-ok (require (find owner s.voting.producers) "unable to find key") _ h1 in
      let (_, h3) = >>-eq-ok (check prod.is_active _) _ h2 in
      let (_, h4) = >>-eq-ok (check (not (s.voting.thresh_activated_stake_time == 0)) _) _ h3 in
      let (_, h5) =
        >>-eq-ok (check (ltb_ℤ (pos useconds_per_day) (pos now -ℤ pos prod.last_claim_time)) _) _
          h4 in
      let (s1, e6, h6) = >>=-eq-ok (fill_buckets host token_supply transition s) _ h5 in
      let found = required (find owner s.voting.producers) prod _ e2 in
      let (funded1, votes1, blocks1, _, same_unpaid) =
        fill_buckets-IsFunded host conversion token_supply transition s s1 e6 self_vpay self_bpay
          funded in
      let (funded2, votes2, blocks2) =
        pay_producer-IsFunded owner prod s1 s' (ok_eq _ _ h6) funded1
          (rw same_unpaid (few prod found)) (fits prod s1 found e6) not_vpay not_bpay in
      (
        funded2,
        eq_of_parts _ _ (omega (int_laws, parts_eq _ _ votes1, parts_eq _ _ votes2)),
        eq_of_parts _ _ (omega (int_laws, parts_eq _ _ blocks1, parts_eq _ _ blocks2)),
      )
