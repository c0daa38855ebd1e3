-- ===== src/Tests/Blocks.antt =====
-- A block that closes an auction, and the account that its winner creates, at concrete states,
-- contracts/eosio.system/src/producer_pay.cpp and eosio.system.cpp.
use eosio_system.Base.{
  ℕ, true, ◌/◌, ◌%◌, ◌<◌, ◌↔◌, ◌*◌, ◌^◌, ◌≡◌, ◌⊎◌, refl, some, [], ◌∷◌, arith, ok,
}
use eosio_system.Base.Int.{ℤ, pos, ◌-ℤ◌, ◌<ℤ◌}
use eosio_system.Host.{Name}
use eosio_system.State.{State, NameBid}
use eosio_system.Table.{find, put, erase, first, is_new}
use eosio_system.Blocks.{BlockParts, is_final, onblock}
use eosio_system.Blocks.Closing.{IsClosing, onblock-IsClosing}
use eosio_system.Accounts.{has_dot, no_resources, newaccount}
use eosio_system.Accounts.Dots.{has_dot_lem}
use eosio_system.Accounts.Claim.{newaccount-erase, IsClosing-newaccount}
use eosio_system.Tests.Sample.{host, no_votes, returned, state, alice, carol}

unchanged : (s s' : State ℤ) → ok s ≡ ok s' → (s'.auctions ≡ s.auctions) × (s'.voting ≡ s.voting)
unchanged s s' h = ground (arith, h)

abbrev parts : BlockParts host
parts = record {
  onblock_update_pool = λ slot s. ok s;
  update_elected_producers = λ slot s. ok s;
  channel_namebid_to_rex_or_pools = λ amount s. ok s;
  update_pool_frame = λ slot s s' h. unchanged s s' h;
  elected_frame = λ slot s s' h. unchanged s s' h;
  channel_namebid_frame = λ amount s s' h. unchanged s s' h;
}

-- A name of one character, and alice's bid on it.
abbrev short_name : Name
short_name = 6 * 2 ^ 59

abbrev bid : NameBid
bid = record { high_bidder = alice; high_bid = pos 900; last_bid_time = 1599800000000000 }

abbrev auction : State ℤ
auction = record state {
  voting = record no_votes { thresh_activated_stake_time = 1 };
  auctions = record {
    namebids = (short_name, bid) ∷ [];
    bidrefunds = λ a. [];
    last_name_close = 7;
  };
}

abbrev sold : State ℤ
sold = returned state (onblock host parts 1306630800 carol auction)

onblock-IsClosing_example :
    (sold.auctions ≡ auction.auctions) ⊎ IsClosing host 1306630800 auction sold
unfolding onblock find first ◌-ℤ◌
onblock-IsClosing_example = onblock-IsClosing host parts 1306630800 carol auction sold refl

closing : IsClosing host 1306630800 auction sold
unfolding find is_final ◌-ℤ◌ onblock first
closing = (short_name, bid, refl, refl, omega arith, refl)

IsClosing-newaccount_example :
    (s : State ℤ) × (newaccount host alice short_name sold ≡ ok s)
    × (find short_name s.stake.userres ≡ some (no_resources host))
unfolding closing
IsClosing-newaccount_example = IsClosing-newaccount host 1306630800 auction sold closing refl refl

abbrev won : State ℤ
won = returned state (newaccount host alice short_name sold)

newaccount-erase_example :
    (b : NameBid) × (find short_name sold.auctions.namebids ≡ some b)
    × (b.high_bidder ≡ alice)
    × (b.high_bid <ℤ pos 0)
    × (won.auctions ≡ record sold.auctions { namebids = erase short_name sold.auctions.namebids })
unfolding newaccount find onblock first ◌-ℤ◌ put is_new
newaccount-erase_example = newaccount-erase host alice short_name sold won refl refl refl refl

has_dot_lem_example :
    (has_dot 12 (short_name / 16) ≡ true)
    ↔ ((i : ℕ) × (i < 12) × (short_name / (16 * 32 ^ i) % 32 ≡ 0))
has_dot_lem_example = has_dot_lem 12 short_name
