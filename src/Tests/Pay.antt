-- ===== src/Tests/Pay.antt =====
-- The pay of producers and the settings of accounts at concrete states,
-- contracts/eosio.system/src/producer_pay.cpp and eosio.system.cpp.
use eosio_system.Base.{
  ok_eq, ℕ, ◌-◌, ◌*◌, ◌/◌, ◌^◌, ◌≤◌, ◌<◌, ◌≡◌, refl, true, false, none, some, [], ◌∷◌, arith, ok,
}
use eosio_system.Base.Int.{i64, u128, ℤ, pos, negsuc, ◌+ℤ◌, ◌-ℤ◌, ◌*ℤ◌, ◌≤ℤ◌, ltb_ℤ, leb_ℤ}
use eosio_system.Host.{bpay_account, vpay_account}
use eosio_system.State.{State, ProducerInfo}
use eosio_system.Table.{find}
use eosio_system.Resources.{is_managed, ram_managed, net_managed, cpu_managed}
use eosio_system.Ram.{ram_gift_bytes}
use eosio_system.Sends.{net_in}
use eosio_system.Settings.{own, setacctram}
use eosio_system.Settings.Managed.{setacctram_round_trip}
use eosio_system.Pay.{fill_buckets, split_inflation, claimrewards}
use eosio_system.Pay.Inflation.{split_inflation_sum}
use eosio_system.Pay.Accounts.{HasConversion, IsFunded}
use eosio_system.Pay.Claims.{FitsInt64, claimrewards-IsFunded}
use eosio_system.Tests.Sample.{host, no_votes, no_pay, returned, state, carol}

-- carol has produced 30 of the 100 blocks that are not paid, and an hour has passed.
abbrev payday : State ℤ
payday = record state {
  voting = record no_votes {
    producers =
        (
          carol,
          record {
            total_votes = pos 700;
            is_active = true;
            unpaid_blocks = 30;
            last_claim_time = 1599900000000000;
            location = 0;
          },
        )
        ∷ [];
    producers2 =
        (carol, record { votepay_share = pos 5; last_votepay_share_update = 1599900000000000 })
        ∷ [];
    thresh_activated_stake_time = 1;
    total_producer_votepay_share = pos 10;
    last_vpay_state_update = 1600000000000000;
  };
  pay = record no_pay {
    last_pervote_bucket_fill = 1599996400000000;
    pervote_bucket = pos 30000000;
    perblock_bucket = pos 10000000;
    total_unpaid_blocks = 100;
    continuous_rate = pos 1;
    inflation_pay_factor = pos 50000;
    votepay_factor = pos 40000;
  };
}

payday-IsFunded : IsFunded payday.pay
payday-IsFunded = record {
  inflation = 50000;
  vote = 40000;
  inflation_factor = refl;
  vote_factor = refl;
  inflation_range = (omega arith, omega arith);
  vote_range = (omega arith, omega arith);
  votes_left = omega arith;
  blocks_left = omega arith;
  revised = omega arith;
}

in_range :
    (x : ℤ)
    → ltb_ℤ x (pos 0) ≡ false
    → leb_ℤ x (pos (2 ^ 63 - 1 - (2 ^ 10 - 1))) ≡ true
    → (n : ℕ) × (x ≡ pos n) × (n < 2 ^ 63)
in_range (pos n) h k = (n, refl, ground (arith, k))
in_range (negsuc n) h k = absurd (ground (arith, h))

conversion : HasConversion host
conversion = record { to_i64_range = in_range }

abbrev paid : State ℤ
paid = returned state (claimrewards host (pos 1000000) (pos 1) carol payday)

few :
    (prod : ProducerInfo ℤ)
    → find carol payday.voting.producers ≡ some prod
    → prod.unpaid_blocks ≤ payday.pay.total_unpaid_blocks
unfolding find
few prod h = ground (arith, h)

abbrev filled : State ℤ
filled = returned state (fill_buckets host (pos 1000000) (pos 1) payday)

abbrev carol_row : ProducerInfo ℤ
carol_row = record {
  total_votes = pos 700;
  is_active = true;
  unpaid_blocks = 30;
  last_claim_time = 1599900000000000;
  location = 0;
}

carol-FitsInt64 : FitsInt64 host carol_row filled.pay
unfolding fill_buckets ◌-ℤ◌ ◌*ℤ◌ ◌+ℤ◌ i64 u128
carol-FitsInt64 = record { pervote = omega arith; perblock = omega arith; product = omega arith }

some_eq : {A : Type 0} (a b : A) → some a ≡ some b → b ≡ a
some_eq a b h = cc

fits :
    (prod : ProducerInfo ℤ) (s : State ℤ)
    → find carol payday.voting.producers ≡ some prod
    → fill_buckets host (pos 1000000) (pos 1) payday ≡ ok s
    → FitsInt64 host prod s.pay
unfolding find fill_buckets ◌-ℤ◌ ◌*ℤ◌
fits prod s h k = rw (some_eq carol_row prod h, ok_eq s filled k) carol-FitsInt64

claimrewards-IsFunded_example :
    IsFunded paid.pay
    × (paid.pay.pervote_bucket +ℤ net_in vpay_account payday.sent
        ≡ payday.pay.pervote_bucket +ℤ net_in vpay_account paid.sent)
    × (paid.pay.perblock_bucket +ℤ net_in bpay_account payday.sent
        ≡ payday.pay.perblock_bucket +ℤ net_in bpay_account paid.sent)
unfolding claimrewards find ◌-ℤ◌ ◌*ℤ◌
claimrewards-IsFunded_example =
    claimrewards-IsFunded host conversion (pos 1000000) (pos 1) carol payday paid refl
      payday-IsFunded few fits refl refl refl refl

split_inflation_sum_example :
    (let p = split_inflation (pos 1000001) (pos 50000) (pos 40000) in
      (p.to_savings +ℤ (p.to_per_block_pay +ℤ p.to_per_vote_pay) ≡ pos 1000001)
      × (p.to_per_block_pay +ℤ p.to_per_vote_pay ≡ pos (1000001 * 10000 / 50000))
      × (p.to_per_block_pay ≡ pos (1000001 * 10000 / 50000 * 10000 / 40000))
      × (pos 0 ≤ℤ p.to_savings)
      × (pos 0 ≤ℤ p.to_per_block_pay)
      × (pos 0 ≤ℤ p.to_per_vote_pay))
split_inflation_sum_example =
    split_inflation_sum 1000001 50000 40000 (omega arith) (omega arith) (omega arith) (omega arith)
      (omega arith)

setacctram_round_trip_example :
    (s1 s2 : State ℤ) × (setacctram host carol (some (pos 7000)) payday ≡ ok s1)
    × (setacctram host carol none s1 ≡ ok s2)
    × (is_managed host ram_managed carol s1 ≡ true)
    × (s1.stake.limits carol ≡ record (payday.stake.limits carol) { ram = pos 7000 })
    × (is_managed host ram_managed carol s2 ≡ false)
    × (is_managed host net_managed carol s2 ≡ is_managed host net_managed carol payday)
    × (is_managed host cpu_managed carol s2 ≡ is_managed host cpu_managed carol payday)
    × (s2.stake.limits carol ≡ record (payday.stake.limits carol) {
      ram = ram_gift_bytes +ℤ own host (λ r. r.ram_bytes) carol payday;
    })
unfolding find
setacctram_round_trip_example =
    setacctram_round_trip host carol (pos 7000) payday refl (omega arith) tt
