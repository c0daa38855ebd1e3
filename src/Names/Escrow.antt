-- ===== src/Names/Escrow.antt =====
-- The tokens that the auctions hold, contracts/eosio.system/src/name_bidding.cpp.
use eosio_system.Base.{
  ◌≡◌, sym, inl, inr, not, Option, none, some, [], ◌∷◌, ◌++◌, arith, ◌==◌, if◌then◌else◌,
  Option-cases, ok, ◌>>=◌, check, >>=-eq-ok, >>-eq-ok,
}
use eosio_system.Base.Int.{
  ℤ, pos, ◌+ℤ◌, ◌-ℤ◌, ◌<ℤ◌, ltb_ℤ, quot, int_laws, parts_eq, eq_of_parts, sub_zero,
}
use eosio_system.Host.{Host, Name, Asset, Sent, HasAssets, require_auth, core, names_account}
use eosio_system.State.{State, send, NameBid, NameTables}
use eosio_system.Table.{Table, find, put, erase, find-put, OnlyAt, put-OnlyAt}
use eosio_system.Table.Sum.{sum, amount_at, sum-put, sum-erase}
use eosio_system.Names.{
  set_refunds, add_refund, new_bid, outbid, place_bid, bidname, bidrefund, check_name,
}

ok_inj : {A : Type 0} (a b : A) → ok a ≡ ok b → a ≡ b
ok_inj a b h = cc

-- The highest bid on a name, if there is one.
abbrev pub high : Option NameBid → ℤ
high none = pos 0
high (some b) = b.high_bid

-- What the auction of a name holds: its highest bid, and the bids that can be claimed back.
abbrev pub held : Name → NameTables → ℤ
held newname a = high (find newname a.namebids) +ℤ sum (λ r. r.amount) (a.bidrefunds newname)

-- Every auction but one is as it was.
abbrev pub OnlyAuction : Name → NameTables → NameTables → Type 0
OnlyAuction newname a a' =
    OnlyAt newname a.namebids a'.namebids
    × ((other : Name)
        → a'.bidrefunds other
          ≡ (if newname == other then a'.bidrefunds newname else a.bidrefunds other))

module _ (host : Host) (laws : HasAssets host) where
  open host use {F, now, core_symbol}

  add_refund-held :
      (current : NameBid) (refunds refunds' : Table Asset)
      → add_refund host current refunds ≡ ok refunds'
      → sum (λ r. r.amount) refunds' ≡ sum (λ r. r.amount) refunds +ℤ current.high_bid
  unfolding add_refund amount_at
  add_refund-held current refunds refunds' h =
      elim (Option-cases (find current.high_bidder refunds)) [
        | inl e ↦
            let stored = rw e at (
              sum-put (λ (r : Asset). r.amount) current.high_bidder (core host current.high_bid)
                refunds) in
            let same : refunds' ≡ put current.high_bidder (core host current.high_bid) refunds =
              ground (arith, h, e) in
            rw same (eq_of_parts _ _ (omega (int_laws, parts_eq _ _ stored)))
        | inr (r, e) ↦
            let h0 : (host.asset_add r (core host current.high_bid)
                  >>= (λ r'. ok (put current.high_bidder r' refunds)))
                ≡ ok refunds' =
              ground (arith, h, e) in
            let (r', ea, h1) = >>=-eq-ok (host.asset_add r (core host current.high_bid)) _ h0 in
            let (more, _) = laws.asset_add_ok r (core host current.high_bid) r' ea in
            let stored =
              rw e at (sum-put (λ (x : Asset). x.amount) current.high_bidder r' refunds) in
            rw (sym (ok_inj _ _ h1))
              (eq_of_parts _ _ (omega (int_laws, parts_eq _ _ stored, parts_eq _ _ more)))
      ]

  -- What placing a bid does.
  abbrev Placed : Name → Name → Asset → NameTables → NameTables → Type 0
  Placed bidder newname bid a a' =
      (held newname a' ≡ held newname a +ℤ bid.amount)
      × (find newname a'.namebids ≡ some (new_bid host bidder bid))
      × OnlyAuction newname a a'
      × (quot (high (find newname a.namebids)) 10 <ℤ bid.amount -ℤ high (find newname a.namebids))

  outbid-Placed :
      (bidder newname : Name) (bid : Asset) (current : NameBid) (s s' : State F)
      → find newname s.auctions.namebids ≡ some current
      → outbid host bidder newname bid current s ≡ ok s'
      → Placed bidder newname bid s.auctions s'.auctions
  unfolding outbid new_bid
  outbid-Placed bidder newname bid current s s' e h =
      let a = s.auctions in
      let (c1, h1) = >>-eq-ok (check (ltb_ℤ (pos 0) current.high_bid) _) _ h in
      let (c2, h2) =
        >>-eq-ok (check (ltb_ℤ (quot current.high_bid 10) (bid.amount -ℤ current.high_bid)) _) _
          h1 in
      let (c3, h3) = >>-eq-ok (check (not (current.high_bidder == bidder)) _) _ h2 in
      let (refunds, e4, h4) = >>=-eq-ok (add_refund host current (a.bidrefunds newname)) _ h3 in
      let kept = add_refund-held current (a.bidrefunds newname) refunds e4 in
      let row = new_bid host bidder bid in
      let same : s'.auctions
          ≡ set_refunds newname refunds (record a { namebids = put newname row a.namebids }) =
        ground (arith, h4) in
      let self : find newname (put newname row a.namebids) ≡ some row =
        rw (find-put newname newname row a.namebids) (ground arith) in
      let own : (if newname == newname then refunds else a.bidrefunds newname) ≡ refunds =
        ground arith in
      rw same (
        rw (self, own, e) (eq_of_parts _ _ (omega (int_laws, parts_eq _ _ kept))),
        self,
        (put-OnlyAt newname row a.namebids, λ other. ground arith),
        rw e (ground (arith, c2)),
      )

  -- A bid on a name that does not abort adds exactly the bid to what the auction of the name holds, as
  -- its highest bid and as bids that can be claimed back; it is then the highest bid, exceeds the one
  -- before, or 0, by more than its tenth, and leaves every other auction alone.
  pub bidname_lem :
      (bidder newname : Name) (bid : Asset) (s s' : State F)
      → bidname host bidder newname bid s ≡ ok s'
      → (held newname s'.auctions ≡ held newname s.auctions +ℤ bid.amount)
        × (find newname s'.auctions.namebids ≡ some (new_bid host bidder bid))
        × OnlyAuction newname s.auctions s'.auctions
        × (quot (high (find newname s.auctions.namebids)) 10
            <ℤ bid.amount -ℤ high (find newname s.auctions.namebids))
  unfolding bidname place_bid new_bid
  bidname_lem bidder newname bid s s' h =
      let (_, h1) = >>-eq-ok (require_auth host bidder) _ h in
      let (_, h2) = >>-eq-ok (check_name host newname) _ h1 in
      let (_, h3) = >>-eq-ok (check (bid.symbol == core_symbol) _) _ h2 in
      let (positive, h4) = >>-eq-ok (check (ltb_ℤ (pos 0) bid.amount) _) _ h3 in
      let s1 = send (Sent.transfer bidder names_account bid) s in
      let row = new_bid host bidder bid in
      let a = s.auctions in
      elim (Option-cases (find newname a.namebids)) [
        | inl e ↦
            let same : s'.auctions ≡ record a { namebids = put newname row a.namebids } =
              ground (arith, h4, e) in
            let self : find newname (put newname row a.namebids) ≡ some row =
              rw (find-put newname newname row a.namebids) (ground arith) in
            let more : pos 0 <ℤ bid.amount = ground (arith, positive) in
            rw same (
              rw (self, e) (omega int_laws),
              self,
              (put-OnlyAt newname row a.namebids, λ other. ground arith),
              rw (e, sub_zero bid.amount) more,
            )
        | inr (current, e) ↦
            let h5 : outbid host bidder newname bid current s1 ≡ ok s' = ground (arith, h4, e) in
            outbid-Placed bidder newname bid current s1 s' e h5
      ]

  -- A refund of a bid that does not abort sends the bidder exactly the bid that could be claimed back,
  -- takes it out of what the auction of the name holds, and leaves every other auction alone.
  pub bidrefund_lem :
      (bidder newname : Name) (s s' : State F)
      → bidrefund host bidder newname s ≡ ok s'
      → (amount : Asset) × (find bidder (s.auctions.bidrefunds newname) ≡ some amount)
        × (s'.sent ≡ s.sent ++ (Sent.transfer names_account bidder amount ∷ []))
        × (held newname s'.auctions +ℤ amount.amount ≡ held newname s.auctions)
        × OnlyAuction newname s.auctions s'.auctions
  unfolding bidrefund amount_at
  bidrefund_lem bidder newname s s' h =
      let a = s.auctions in
      let refunds = a.bidrefunds newname in
      elim (Option-cases (find bidder refunds)) [
        | inl e ↦ absurd (ground (arith, h, e))
        | inr (amount, e) ↦
            let left = erase bidder refunds in
            let same : s'.auctions ≡ set_refunds newname left a = ground (arith, h, e) in
            let own : (if newname == newname then left else refunds) ≡ left = ground arith in
            let gone = rw e at (sum-erase (λ (x : Asset). x.amount) bidder refunds) in
            (
              amount,
              e,
              ground (arith, h, e),
              rw (same, own) (eq_of_parts _ _ (omega (int_laws, parts_eq _ _ gone))),
              rw same (λ other. ground arith, λ other. ground arith),
            )
      ]
