-- ===== src/Tests/Sample.antt =====
-- A chain to run the contract on: whole numbers for `double`, asset arithmetic without a bound, every
-- authority given, and voting that changes nothing.
use eosio_system.Base.{
  ◌||◌, ℕ, ◌+◌, ◌*◌, ◌≡◌, Bool, true, none, some, List, [], ◌∷◌, arith, ◌==◌, if◌then◌else◌, Result,
  ok, err,
}
use eosio_system.Base.Int.{ℤ, pos, pos_part, ◌+ℤ◌, ◌-ℤ◌, ◌*ℤ◌, ltb_ℤ, leb_ℤ, abs_ℤ, quot}
use eosio_system.Host.{
  Host, Name, Symbol, Asset, asset, add_amount, sub_amount, Double, HasAssets, seconds_per_day,
  end_of_days, eosio,
}
use eosio_system.State.{
  State, RexPool, RexReturnPool, RexBalance, RexLoan, RexOrder, RexTables, UserResources, Limits,
  VoteTables, PayTables,
}
use eosio_system.Votes.{Votes}

abbrev pub eos : Symbol
eos = 0x534f_4504

abbrev pub rex_token : Symbol
rex_token = 0x5845_5204

abbrev whole_numbers : Double
whole_numbers = record {
  F = ℤ;
  of_int = λ x. x;
  fadd = ◌+ℤ◌;
  fsub = ◌-ℤ◌;
  fmul = ◌*ℤ◌;
  fdiv = λ a b. quot a (pos_part b);
  pow = λ x y. x;
  to_i64 = λ x. x;
  flt = ltb_ℤ;
  fle = leb_ℤ;
  fneg = λ x. pos 0 -ℤ x;
  fabs = abs_ℤ;
}

-- 2020-09-13T12:26:40
abbrev pub host : Host
host = record {
  double = whole_numbers;
  now = 1600000000000000;
  slot = 1306630800;
  self = eosio;
  has_auth = λ a. true;
  is_account = λ a. a == 101 || a == 102 || a == 103;
  suffix = λ a. a;
  core_symbol = eos;
  asset_add =
      λ a b. if a.symbol == b.symbol then ok (add_amount a b.amount) else err "symbols differ";
  asset_sub =
      λ a b. if a.symbol == b.symbol then ok (sub_amount a b.amount) else err "symbols differ";
  asset_le =
      λ a b. if a.symbol == b.symbol then ok (leb_ℤ a.amount b.amount) else err "symbols differ";
}

pub laws : HasAssets host
laws = record {
  asset_add_ok = λ a b c h. ground (arith, h);
  asset_sub_ok = λ a b c h. ground (arith, h);
  asset_le_ok = λ a b c h. ground (arith, h);
}

pub kept :
    (voter proxy : Name) (producers : List Name) (voting : Bool) (s s' : State ℤ)
    → ok s ≡ ok s'
    → (s'.rex ≡ s.rex)
      × (s'.stake ≡ s.stake)
      × (s'.ram ≡ s.ram)
      × (s'.auctions ≡ s.auctions)
      × (s'.sent ≡ s.sent)
kept voter proxy producers voting s s' h = ground (arith, h)

abbrev pub votes : Votes host
votes = record { update_votes = λ voter proxy producers voting s. ok s; update_votes_frame = kept }

-- What a call returns, if it returns.
abbrev pub returned : {A : Type 0} → A → Result A → A
returned d (ok a) = a
returned d (err e) = d

abbrev pub alice : Name
alice = 101

abbrev pub bob : Name
bob = 102

abbrev pub carol : Name
carol = 103

abbrev pub tokens : ℕ → Asset
tokens n = asset (pos n) eos

abbrev pub rex : ℕ → Asset
rex n = asset (pos n) rex_token

-- 1000 tokens are lent by the two loans, of 600 and of 400.
abbrev pub pool : RexPool
pool = record {
  total_lent = tokens 1000;
  total_unlent = tokens 9000;
  total_rent = tokens 500;
  total_lendable = tokens 10000;
  total_rex = rex 50000;
  namebid_proceeds = tokens 30;
  loan_num = 2;
}

-- A loan for carol, which alice pays for.
abbrev pub loan : ℕ → ℕ → ℕ → RexLoan
loan staked balance expiration = record {
  from = alice;
  receiver = carol;
  payment = tokens 10;
  balance = tokens balance;
  total_staked = tokens staked;
  expiration = expiration;
}

-- A day of the tests, at midnight.
abbrev pub midnight : ℕ
midnight = 1599955200

-- bob's REX: 5000 matured, 8000 that matures, of which half is due, and 7000 in savings.
abbrev pub bob_rex : RexBalance
bob_rex = record {
  vote_stake = tokens 4000;
  rex_balance = rex 20000;
  matured_rex = pos 5000;
  rex_maturities =
      (midnight, pos 4000)
      ∷ (midnight + 2 * seconds_per_day, pos 4000)
      ∷ (end_of_days, pos 7000)
      ∷ [];
}

abbrev pub alice_rex : RexBalance
alice_rex = record {
  vote_stake = tokens 6000;
  rex_balance = rex 30000;
  matured_rex = pos 30000;
  rex_maturities = [];
}

abbrev pub open_order : RexOrder
open_order = record {
  rex_requested = rex 1000;
  proceeds = tokens 0;
  stake_change = tokens 0;
  order_time = 1599000000000000;
  is_open = true;
}

-- Fees of 600 wait since two hours, and 4320 are paid out at 2 in an interval.
abbrev pub return_pool : RexReturnPool
return_pool = record {
  last_dist_time = 1599994800;
  pending_bucket_time = 1599998400;
  oldest_bucket_time = 1599004800;
  pending_bucket_proceeds = pos 600;
  current_rate_of_increase = pos 2;
  proceeds = pos 4320;
}

abbrev pub tables : RexTables
tables = record {
  rexpool = some pool;
  rexretpool = some return_pool;
  rexretbuckets = (1599004800, pos 2) ∷ [];
  rexfunds = (alice, tokens 100) ∷ (bob, tokens 50) ∷ [];
  rexbalance = (alice, alice_rex) ∷ (bob, bob_rex) ∷ [];
  rexorders = (bob, open_order) ∷ [];
  cpu_loans = (1, loan 600 100 1599000000000000) ∷ [];
  net_loans = (2, loan 400 0 1599000000000000) ∷ [];
}

abbrev pub resources : UserResources
resources = record { net_weight = tokens 5000; cpu_weight = tokens 5000; ram_bytes = pos 4000 }

abbrev pub limits : Limits
limits = record { ram = pos 4000; net = pos 5000; cpu = pos 5000 }

abbrev pub no_votes : VoteTables ℤ
no_votes = record {
  voters = [];
  producers = [];
  producers2 = [];
  thresh_activated_stake_time = 0;
  total_activated_stake = pos 0;
  total_producer_vote_weight = pos 0;
  total_producer_votepay_share = pos 0;
  total_vpay_share_change_rate = pos 0;
  last_vpay_state_update = 0;
}

abbrev pub no_pay : PayTables ℤ
no_pay = record {
  last_producer_schedule_update = 0;
  last_pervote_bucket_fill = 0;
  pervote_bucket = pos 0;
  perblock_bucket = pos 0;
  total_unpaid_blocks = 0;
  continuous_rate = pos 0;
  inflation_pay_factor = pos 0;
  votepay_factor = pos 0;
  revision = 1;
}

abbrev pub state : State ℤ
state = record {
  rex = tables;
  stake = record {
    userres = (carol, resources) ∷ [];
    delband = λ a. [];
    refunds = [];
    limits = λ a. limits;
  };
  voting = no_votes;
  pay = no_pay;
  ram = record {
    rammarket = none;
    max_ram_size = 0;
    total_ram_bytes_reserved = 0;
    total_ram_stake = pos 0;
    new_ram_per_block = 0;
    last_ram_increase = 0;
  };
  auctions = record { namebids = []; bidrefunds = λ a. []; last_name_close = 0 };
  sent = [];
}
