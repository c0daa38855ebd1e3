-- ===== src/Pay/Accounts.antt =====
-- The buckets of the pay of producers and the accounts behind them,
-- contracts/eosio.system/src/producer_pay.cpp: `claimrewards`.
use eosio_system.Base.{
  ok_eq, taken, not_taken, ℕ, ◌-◌, ◌^◌, ◌≤◌, ◌<◌, ◌≡◌, ◌∙◌, refl, ap, inl, inr, Bool, true, false,
  ◌&&◌, [], ◌∷◌, arith, ltb, ◌==◌, if◌then◌else◌, Bool-cases, ok, check, >>-eq-ok, check-eq-ok,
}
use eosio_system.Base.Int.{ℤ, pos, ◌+ℤ◌, ◌-ℤ◌, ◌≤ℤ◌, ltb_ℤ, int_laws, parts_eq, eq_of_parts}
use eosio_system.Host.{
  Host, Name, Sent, core, useconds_per_year, saving_account, bpay_account, vpay_account,
}
use eosio_system.State.{State, send, PayTables}
use eosio_system.Sends.{net_in, net_in-append}
use eosio_system.Stake.Sums.{not_less}
use eosio_system.Voting.Shares.{fzero}
use eosio_system.Pay.{
  pay_factor_precision, Split, split_inflation, set_pay, send_positive, issue_tokens, fill_buckets,
}
use eosio_system.Pay.Inflation.{split_inflation_sum}

differ : (a b : ℕ) → (a == b) ≡ false → (b == a) ≡ false
differ a b h = ground arith

nothing_moved :
    (b c : Bool) (x : ℤ) → x ≡ x +ℤ ((if b then pos 0 else pos 0) -ℤ (if c then pos 0 else pos 0))
nothing_moved true true x = omega int_laws
nothing_moved true false x = omega int_laws
nothing_moved false true x = omega int_laws
nothing_moved false false x = omega int_laws

-- The documented conversion of a `double` to `int64_t`, on the range that the code has checked.
pub record HasConversion (host : Host) : Type 0 where
  pub to_i64_range :
      (x : host.F)
      → host.flt x (host.of_int (pos 0)) ≡ false
      → host.fle x (host.of_int (pos (2 ^ 63 - 1 - (2 ^ 10 - 1)))) ≡ true
      → (n : ℕ) × (host.to_i64 x ≡ pos n) × (n < 2 ^ 63)

-- The factors are those that `setinflation` allows, and the buckets are not overdrawn.
pub record IsFunded {F : Type 0} (p : PayTables F) : Type 0 where
  pub inflation : ℕ
  pub vote : ℕ
  pub inflation_factor : p.inflation_pay_factor ≡ pos inflation
  pub vote_factor : p.votepay_factor ≡ pos vote
  pub inflation_range : (pay_factor_precision ≤ inflation) × (inflation < 2 ^ 63)
  pub vote_range : (pay_factor_precision ≤ vote) × (vote < 2 ^ 63)
  pub votes_left : pos 0 ≤ℤ p.pervote_bucket
  pub blocks_left : pos 0 ≤ℤ p.perblock_bucket
  pub revised : 0 < p.revision

-- The parts of `n` new tokens are not negative and make up the whole.
abbrev IsSplit : ℕ → Split → Type 0
IsSplit n p =
    (p.to_savings +ℤ (p.to_per_block_pay +ℤ p.to_per_vote_pay) ≡ pos n)
    × (pos 0 ≤ℤ p.to_savings)
    × (pos 0 ≤ℤ p.to_per_block_pay)
    × (pos 0 ≤ℤ p.to_per_vote_pay)

split_inflation-IsSplit :
    (tokens f v : ℤ) (n a b : ℕ)
    → tokens ≡ pos n
    → n < 2 ^ 63
    → f ≡ pos a
    → v ≡ pos b
    → (pay_factor_precision ≤ a) × (a < 2 ^ 63)
    → (pay_factor_precision ≤ b) × (b < 2 ^ 63)
    → IsSplit n (split_inflation tokens f v)
split_inflation-IsSplit tokens f v n a b et small ef ev (la, ha) (lb, hb) =
    let (total, _, _, saved, blocks, votes) = split_inflation_sum n a b small la ha lb hb in
    rw (et, ef, ev) (total, saved, blocks, votes)

module _ (host : Host) where
  open host use {F, now, self}

  -- A transfer of nothing is not sent.
  pub send_positive-net_in :
      (account from to : Name) (amount : ℤ) (s : State F)
      → pos 0 ≤ℤ amount
      → net_in account (send_positive host from to amount s).sent
        ≡ net_in account s.sent
          +ℤ ((if to == account then amount else pos 0)
              -ℤ (if from == account then amount else pos 0))
  unfolding net_in
  send_positive-net_in account from to amount s h = elim (Bool-cases (ltb_ℤ (pos 0) amount)) [
    | inl e ↦
        rw (e, net_in-append account s.sent (Sent.transfer from to (core host amount) ∷ []))
          (omega int_laws)
    | inr e ↦
        let zero_amount : amount ≡ pos 0 =
          eq_of_parts _ _ (omega (arith, h, not_less (pos 0) amount e)) in
        rw (e, zero_amount)
          (nothing_moved (to == account) (from == account) (net_in account s.sent))
  ]

  pub send_positive-voting :
      (from to : Name) (amount : ℤ) (s : State F)
      → ((send_positive host from to amount s).voting ≡ s.voting)
        × ((send_positive host from to amount s).pay ≡ s.pay)
  send_positive-voting from to amount s = elim (Bool-cases (ltb_ℤ (pos 0) amount)) [
    | inl e ↦ rw e (refl, refl)
    | inr e ↦ rw e (refl, refl)
  ]

  -- Nothing but the account itself pays, and it is neither of the two.
  funded-net_in :
      (account to : Name) (amount : ℤ) (s : State F)
      → (self == account) ≡ false
      → pos 0 ≤ℤ amount
      → net_in account (send_positive host self to amount s).sent
        ≡ net_in account s.sent +ℤ (if to == account then amount else pos 0)
  funded-net_in account to amount s other h =
      let moved = rw other at (send_positive-net_in account self to amount s h) in
      eq_of_parts _ _ (omega (int_laws, parts_eq _ _ moved))

  -- What is issued for a split goes to the accounts for votes and for blocks.
  issue_tokens-net_in :
      (n : ℕ) (p : Split) (s : State F)
      → (self == vpay_account) ≡ false
      → (self == bpay_account) ≡ false
      → pos 0 ≤ℤ p.to_savings
      → pos 0 ≤ℤ p.to_per_block_pay
      → pos 0 ≤ℤ p.to_per_vote_pay
      → (p.to_savings +ℤ (p.to_per_block_pay +ℤ p.to_per_vote_pay) ≡ pos n)
      → (net_in vpay_account (issue_tokens host (pos n) p s).sent
          ≡ net_in vpay_account s.sent +ℤ p.to_per_vote_pay)
        × (net_in bpay_account (issue_tokens host (pos n) p s).sent
            ≡ net_in bpay_account s.sent +ℤ p.to_per_block_pay)
        × ((issue_tokens host (pos n) p s).voting ≡ s.voting)
  unfolding issue_tokens net_in ◌+ℤ◌
  issue_tokens-net_in n p s not_vpay not_bpay hs hb hv total =
      let s0 = send (Sent.issue self (core host (pos n))) s in
      let s1 = send_positive host self saving_account p.to_savings s0 in
      let s2 = send_positive host self bpay_account p.to_per_block_pay s1 in
      let s3 = send_positive host self vpay_account p.to_per_vote_pay s2 in
      elim (Bool-cases (ltb_ℤ (pos 0) (pos n))) [
        | inl e ↦
            let v0 = net_in-append vpay_account s.sent (Sent.issue self (core host (pos n)) ∷ []) in
            let v1 = funded-net_in vpay_account saving_account p.to_savings s0 not_vpay hs in
            let v2 = funded-net_in vpay_account bpay_account p.to_per_block_pay s1 not_vpay hb in
            let v3 = funded-net_in vpay_account vpay_account p.to_per_vote_pay s2 not_vpay hv in
            let b0 = net_in-append bpay_account s.sent (Sent.issue self (core host (pos n)) ∷ []) in
            let b1 = funded-net_in bpay_account saving_account p.to_savings s0 not_bpay hs in
            let b2 = funded-net_in bpay_account bpay_account p.to_per_block_pay s1 not_bpay hb in
            let b3 = funded-net_in bpay_account vpay_account p.to_per_vote_pay s2 not_bpay hv in
            rw e (
              eq_of_parts _ _ (
                  omega
                    (int_laws, parts_eq _ _ v0, parts_eq _ _ v1, parts_eq _ _ v2, parts_eq _ _ v3)),
              eq_of_parts _ _ (
                  omega
                    (int_laws, parts_eq _ _ b0, parts_eq _ _ b1, parts_eq _ _ b2, parts_eq _ _ b3)),
              (send_positive-voting self vpay_account p.to_per_vote_pay s2).0
                  ∙ (send_positive-voting self bpay_account p.to_per_block_pay s1).0
                  ∙ (send_positive-voting self saving_account p.to_savings s0).0,
            )
        | inr e ↦
            let empty = not_less (pos 0) (pos n) e in
            rw e (
              eq_of_parts _ _ (omega (int_laws, parts_eq _ _ total, empty, hs, hb, hv)),
              eq_of_parts _ _ (omega (int_laws, parts_eq _ _ total, empty, hs, hb, hv)),
              refl,
            )
      ]

  not_filled :
      (s s' : State F)
      → s' ≡ s
      → IsFunded s.pay
      → IsFunded s'.pay
        × (s'.pay.pervote_bucket +ℤ net_in vpay_account s.sent
            ≡ s.pay.pervote_bucket +ℤ net_in vpay_account s'.sent)
        × (s'.pay.perblock_bucket +ℤ net_in bpay_account s.sent
            ≡ s.pay.perblock_bucket +ℤ net_in bpay_account s'.sent)
        × (s'.voting ≡ s.voting)
        × (s'.pay.total_unpaid_blocks ≡ s.pay.total_unpaid_blocks)
  not_filled s s' e funded = rw e (funded, refl, refl, refl, refl)

  abbrev paid_in : ℤ → Split → State F → State F
  paid_in tokens p s =
      set_pay
        (record s.pay {
          pervote_bucket = s.pay.pervote_bucket +ℤ p.to_per_vote_pay;
          perblock_bucket = s.pay.perblock_bucket +ℤ p.to_per_block_pay;
          last_pervote_bucket_fill = now;
        })
        (issue_tokens host tokens p s)

  new_tokens_range :
      (conversion : HasConversion host) (x : F)
      → host.fle x (host.of_int (pos (2 ^ 63 - 1 - (2 ^ 10 - 1)))) ≡ true
      → (n : ℕ) × ((if host.flt x (fzero host) then pos 0 else host.to_i64 x) ≡ pos n)
        × (n < 2 ^ 63)
  new_tokens_range conversion x low = elim (Bool-cases (host.flt x (fzero host))) [
    | inl e ↦ (0, rw e refl, omega arith)
    | inr e ↦ let (n, same, small) = conversion.to_i64_range x e low in (n, rw e same, small)
  ]

  filled :
      (n : ℕ) (p : Split) (s s' : State F)
      → s' ≡ paid_in (pos n) p s
      → (self == vpay_account) ≡ false
      → (self == bpay_account) ≡ false
      → IsFunded s.pay
      → IsSplit n p
      → IsFunded s'.pay
        × (s'.pay.pervote_bucket +ℤ net_in vpay_account s.sent
            ≡ s.pay.pervote_bucket +ℤ net_in vpay_account s'.sent)
        × (s'.pay.perblock_bucket +ℤ net_in bpay_account s.sent
            ≡ s.pay.perblock_bucket +ℤ net_in bpay_account s'.sent)
        × (s'.voting ≡ s.voting)
        × (s'.pay.total_unpaid_blocks ≡ s.pay.total_unpaid_blocks)
  filled n p s s' result not_vpay not_bpay funded (total, hs, hb, hv) =
      let (votes, blocks, same) = issue_tokens-net_in n p s not_vpay not_bpay hs hb hv total in
      rw result (
        record {
          inflation = funded.inflation;
          vote = funded.vote;
          inflation_factor = funded.inflation_factor;
          vote_factor = funded.vote_factor;
          inflation_range = funded.inflation_range;
          vote_range = funded.vote_range;
          votes_left = omega (int_laws, hv, funded.votes_left);
          blocks_left = omega (int_laws, hb, funded.blocks_left);
          revised = funded.revised;
        },
        eq_of_parts _ _ (omega (int_laws, parts_eq _ _ votes)),
        eq_of_parts _ _ (omega (int_laws, parts_eq _ _ blocks)),
        same,
        refl,
      )

  -- The buckets grow by what is paid into the accounts behind them.
  pub fill_buckets-IsFunded :
      (conversion : HasConversion host) (token_supply : ℤ) (transition : F) (s s' : State F)
      → fill_buckets host token_supply transition s ≡ ok s'
      → (self == vpay_account) ≡ false
      → (self == bpay_account) ≡ false
      → IsFunded s.pay
      → IsFunded s'.pay
        × (s'.pay.pervote_bucket +ℤ net_in vpay_account s.sent
            ≡ s.pay.pervote_bucket +ℤ net_in vpay_account s'.sent)
        × (s'.pay.perblock_bucket +ℤ net_in bpay_account s.sent
            ≡ s.pay.perblock_bucket +ℤ net_in bpay_account s'.sent)
        × (s'.voting ≡ s.voting)
        × (s'.pay.total_unpaid_blocks ≡ s.pay.total_unpaid_blocks)
  unfolding fill_buckets
  fill_buckets-IsFunded conversion token_supply transition s s' h not_vpay not_bpay funded =
      let usecs = pos now -ℤ pos s.pay.last_pervote_bucket_fill in
      let due = ltb_ℤ (pos 0) usecs && ltb 0 s.pay.last_pervote_bucket_fill in
      elim (Bool-cases due) [
        | inr e ↦ not_filled s s' (ok_eq _ _ (not_taken due _ _ _ e h)) funded
        | inl e ↦
            let h0 = taken due _ _ _ e h in
            let inflation : F =
              host.fdiv
                (host.fmul
                  (host.fmul (host.fmul transition s.pay.continuous_rate)
                    (host.of_int token_supply))
                  (host.of_int usecs))
                (host.of_int (pos useconds_per_year)) in
            let (low, h1) =
              >>-eq-ok
                (check (host.fle inflation (host.of_int (pos (2 ^ 63 - 1 - (2 ^ 10 - 1))))) _) _
                h0 in
            let (n, new, small) = new_tokens_range conversion inflation (
              check-eq-ok (host.fle inflation (host.of_int (pos (2 ^ 63 - 1 - (2 ^ 10 - 1))))) _
                low) in
            let tokens = if host.flt inflation (fzero host) then pos 0 else host.to_i64 inflation in
            let p = split_inflation tokens s.pay.inflation_pay_factor s.pay.votepay_factor in
            filled n p s s' (ok_eq _ _ h1 ∙ ap (λ x. paid_in x p s) new) not_vpay not_bpay funded (
              split_inflation-IsSplit tokens s.pay.inflation_pay_factor s.pay.votepay_factor n
                funded.inflation funded.vote new small funded.inflation_factor funded.vote_factor
                funded.inflation_range funded.vote_range)
      ]
