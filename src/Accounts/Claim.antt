-- ===== src/Accounts/Claim.antt =====
-- Who may create an account with a name that was up for auction, contracts/eosio.system/src/eosio.system.cpp:
-- `newaccount`, after `onblock` of producer_pay.cpp.
use eosio_system.Base.{
  ==_iff, ok_eq, required, taken, ℕ, ◌/◌, ◌≡◌, ◌∙◌, refl, ap, inl, inr, Bool, true, false, not,
  ◌&&◌, none, some, ◌==◌, if◌then◌else◌, Bool-cases, ok, check, require, >>=-eq-ok, >>-eq-ok,
  check-eq-ok,
}
use eosio_system.Base.Int.{ℤ, pos, neg_ℤ, ◌<ℤ◌, ltb_ℤ, int_laws, ltb_ℤ→lt}
use eosio_system.Host.{Host, Name}
use eosio_system.State.{State, NameBid, NameTables}
use eosio_system.Table.{find-put_same, find, put, erase, is_new}
use eosio_system.Names.{set_auctions}
use eosio_system.Resources.{set_limits, set_userres}
use eosio_system.Accounts.{has_dot, claim_name, no_resources, empty_account, newaccount}
use eosio_system.Blocks.{is_final}
use eosio_system.Blocks.Closing.{IsClosing}

both_true : (a b : Bool) → a ≡ true → b ≡ true → a && b ≡ true
both_true true b ha hb = hb
both_true false b ha hb = cc

first_of : (a b : Bool) → a && b ≡ true → a ≡ true
first_of true b h = refl
first_of false b h = cc

paid_out_bid : (x : ℤ) → ltb_ℤ (pos 0) x ≡ true → ltb_ℤ (neg_ℤ x) (pos 0) ≡ true
paid_out_bid x h = grind int_laws

same_name : (n m : ℕ) → n ≡ m → (n == m) ≡ true
same_name n m h = (==_iff n m).1 h

module _ (host : Host) where
  open host use {F, self, suffix}

  claim_name-erase :
      (creator newact : Name) (s s' : State F)
      → claim_name host creator newact s ≡ ok s'
      → suffix newact ≡ newact
      → (b : NameBid) × (find newact s.auctions.namebids ≡ some b)
        × (b.high_bidder ≡ creator)
        × (b.high_bid <ℤ pos 0)
        × (s'.auctions ≡ record s.auctions { namebids = erase newact s.auctions.namebids })
  unfolding claim_name
  claim_name-erase creator newact s s' h own =
      let h0 = taken (suffix newact == newact) _ _ _ (same_name (suffix newact) newact own) h in
      let (b, e1, h1) =
        >>=-eq-ok (require (find newact s.auctions.namebids) "no active bid for name") _ h0 in
      let (c2, h2) = >>-eq-ok (check (b.high_bidder == creator) _) _ h1 in
      let (c3, h3) = >>-eq-ok (check (ltb_ℤ b.high_bid (pos 0)) _) _ h2 in
      (
        b,
        required (find newact s.auctions.namebids) b _ e1,
        (==_iff b.high_bidder creator).0 (check-eq-ok (b.high_bidder == creator) _ c2),
        ltb_ℤ→lt b.high_bid (pos 0) (check-eq-ok (ltb_ℤ b.high_bid (pos 0)) _ c3),
        rw (ok_eq _ _ h3) refl,
      )

  -- A `newaccount` that does not abort, by another account than the contract and for a name with a dot
  -- that is its own suffix, was by the highest bidder of a closed auction of the name, whose bid it
  -- erases.
  pub newaccount-erase :
      (creator newact : Name) (s s' : State F)
      → newaccount host creator newact s ≡ ok s'
      → (creator == self) ≡ false
      → has_dot 12 (newact / 16) ≡ true
      → suffix newact ≡ newact
      → (b : NameBid) × (find newact s.auctions.namebids ≡ some b)
        × (b.high_bidder ≡ creator)
        × (b.high_bid <ℤ pos 0)
        × (s'.auctions ≡ record s.auctions { namebids = erase newact s.auctions.namebids })
  unfolding newaccount empty_account
  newaccount-erase creator newact s s' h other dotted own =
      let short = not (creator == self) && has_dot 12 (newact / 16) in
      let (s1, e1, h1) = >>=-eq-ok (if short then claim_name host creator newact s else ok s) _ h in
      let is_short : short ≡ true = rw (other, dotted) refl in
      let (b, found, winner, final, gone) =
        claim_name-erase creator newact s s1 (taken short _ _ _ is_short e1) own in
      let (_, h2) = >>-eq-ok (check (is_new (find newact s1.stake.userres)) _) _ h1 in
      (b, found, winner, final, ap (λ (x : State F). x.auctions) (ok_eq _ _ h2) ∙ gone)

  claim_name_succeeds :
      (newact : Name) (b : NameBid) (s : State F)
      → find newact s.auctions.namebids ≡ some b
      → ltb_ℤ b.high_bid (pos 0) ≡ true
      → suffix newact ≡ newact
      → (s' : State F) × (claim_name host b.high_bidder newact s ≡ ok s') × (s'.stake ≡ s.stake)
  unfolding claim_name
  claim_name_succeeds newact b s found final own = (
    set_auctions (record s.auctions { namebids = erase newact s.auctions.namebids }) s,
    rw
        (
          same_name (suffix newact) newact own,
          found,
          same_name b.high_bidder b.high_bidder refl,
          final,
        )
        refl,
    refl,
  )

  empty_account_succeeds :
      (newact : Name) (s : State F)
      → find newact s.stake.userres ≡ none
      → (s' : State F) × (empty_account host newact s ≡ ok s')
        × (find newact s'.stake.userres ≡ some (no_resources host))
  unfolding empty_account is_new
  empty_account_succeeds newact s free =
      let s' =
        set_limits host newact (record { ram = pos 0; net = pos 0; cpu = pos 0 })
          (set_userres host (put newact (no_resources host) s.stake.userres) s) in
      (s', rw free refl, find-put_same newact (no_resources host) s.stake.userres)

  -- Once a block has closed the auction of a name that is its own suffix, a `newaccount` of that name
  -- by the highest bidder succeeds if the account has no row of resources, and gives it one with
  -- nothing in it.
  pub IsClosing-newaccount :
      (slot : ℕ) (s s' : State F) (closing : IsClosing host slot s s')
      → suffix closing.0 ≡ closing.0
      → find closing.0 s'.stake.userres ≡ none
      → (s'' : State F) × (newaccount host (closing.1).high_bidder closing.0 s' ≡ ok s'')
        × (find closing.0 s''.stake.userres ≡ some (no_resources host))
  unfolding newaccount is_final
  IsClosing-newaccount slot s s' (newname, b, found, final, day, result) own free =
      let row = record b { high_bid = neg_ℤ b.high_bid } in
      let here : find newname s'.auctions.namebids ≡ some row =
        ap (λ (a : NameTables). find newname a.namebids) result
        ∙ find-put_same newname row s.auctions.namebids in
      let positive = first_of (ltb_ℤ (pos 0) b.high_bid) _ final in
      let (s1, claimed, same) =
        claim_name_succeeds newname row s' here (paid_out_bid b.high_bid positive) own in
      let short = not (b.high_bidder == self) && has_dot 12 (newname / 16) in
      elim (Bool-cases short) [
        | inl e ↦
            let (s2, made, row2) = empty_account_succeeds newname s1 (rw same free) in
            (s2, rw (e, claimed) made, row2)
        | inr e ↦
            let (s2, made, row2) = empty_account_succeeds newname s' free in (s2, rw e made, row2)
      ]
