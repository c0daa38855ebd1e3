-- ===== src/Tests/Names.antt =====
-- The auctions of names at concrete states, contracts/eosio.system/src/name_bidding.cpp.
use eosio_system.Base.{◌≡◌, refl, some, [], ◌∷◌, ◌++◌}
use eosio_system.Base.Int.{ℤ, pos, ◌+ℤ◌, ◌-ℤ◌, ◌<ℤ◌, quot}
use eosio_system.Host.{Name, Asset, Sent, names_account}
use eosio_system.State.{State}
use eosio_system.Table.{find}
use eosio_system.Tests.Sample.{host, laws, returned, alice, carol, tokens, state}
use eosio_system.Names.{new_bid, bidname, bidrefund}
use eosio_system.Names.Escrow.{high, held, OnlyAuction, bidname_lem, bidrefund_lem}

-- carol has bid 1000 on a name, and alice can claim 40 back.
abbrev short_name : Name
short_name = 0x2000_0000_0000_0000

abbrev auctioned : State ℤ
auctioned = record state {
  auctions = record {
    namebids =
        (short_name, record { high_bidder = carol; high_bid = pos 1000; last_bid_time = 5 }) ∷ [];
    bidrefunds = λ n. (alice, tokens 40) ∷ [];
    last_name_close = 0;
  };
}

abbrev outbid_state : State ℤ
outbid_state = returned auctioned (bidname host alice short_name (tokens 1101) auctioned)

bidname_lem_example :
    let a = auctioned.auctions in
    let a' = outbid_state.auctions in
    (held short_name a' ≡ held short_name a +ℤ pos 1101)
    × (find short_name a'.namebids ≡ some (new_bid host alice (tokens 1101)))
    × OnlyAuction short_name a a'
    × (quot (high (find short_name a.namebids)) 10 <ℤ pos 1101 -ℤ high (find short_name a.namebids))
unfolding bidname find ◌-ℤ◌
bidname_lem_example =
    bidname_lem host laws alice short_name (tokens 1101) auctioned outbid_state refl

abbrev refunded : State ℤ
refunded = returned auctioned (bidrefund host alice short_name auctioned)

bidrefund_lem_example :
    let a = auctioned.auctions in
    let a' = refunded.auctions in
    (amount : Asset) × (find alice (a.bidrefunds short_name) ≡ some amount)
    × (refunded.sent ≡ auctioned.sent ++ (Sent.transfer names_account alice amount ∷ []))
    × (held short_name a' +ℤ amount.amount ≡ held short_name a)
    × OnlyAuction short_name a a'
unfolding bidrefund find
bidrefund_lem_example = bidrefund_lem host laws alice short_name auctioned refunded refl
