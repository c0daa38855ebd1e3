-- ===== src/Voting/Register.antt =====
-- The registration of producers, contracts/eosio.system/src/voting.cpp. Keys, pages and pool votes of producers
-- are left out; a page is there by its size.
use eosio_system.Base.{
  check-eq-ok, ok_eq, ℕ, ◌<◌, ◌≡◌, ◌≢◌, refl, true, Option, none, some, arith, ltb, ◌==◌,
  if◌then◌else◌, Result, ok, ◌>>=◌, ◌>>◌, check, >>=-eq-ok, >>-eq-ok,
}
use eosio_system.Host.{Host, Name, require_auth}
use eosio_system.State.{State, ProducerInfo, ProducerInfo2, VoteTables}
use eosio_system.Table.{
  is_new, is_new-none, unchanged-OnlyAt, find, put, OnlyAt, find-put_same, put-OnlyAt,
}
use eosio_system.Voting.Shares.{fzero, update_total_votepay_share}

module _ (host : Host) where
  open host use {F, now}

  unfoldable pub new_producer : ℕ → ProducerInfo F
  new_producer location = record {
    total_votes = fzero host;
    is_active = true;
    unpaid_blocks = 0;
    last_claim_time = now;
    location = location;
  }

  unfoldable pub reactivated : ℕ → ProducerInfo F → ProducerInfo F
  reactivated location info = record info {
    is_active = true;
    location = location;
    last_claim_time = if info.last_claim_time == 0 then now else info.last_claim_time;
  }

  unfoldable pub new_producer2 : ProducerInfo2 F
  new_producer2 = record { votepay_share = fzero host; last_votepay_share_update = now }

  -- The second row of a producer that is registered again.
  unfoldable pub add_producer2 :
      Name → ProducerInfo F → Option (ProducerInfo2 F) → VoteTables F → VoteTables F
  unfolding new_producer2 update_total_votepay_share
  add_producer2 producer prod none t =
      update_total_votepay_share host (fzero host) prod.total_votes
        (record t { producers2 = put producer new_producer2 t.producers2 })
  add_producer2 producer prod (some info) t = t

  unfoldable pub register_producer :
      Name → ℕ → Option (ProducerInfo F) → VoteTables F → Result (VoteTables F)
  unfolding new_producer reactivated new_producer2 add_producer2 is_new
  register_producer producer location (some prod) t = ok (
      add_producer2 producer prod (find producer t.producers2)
        (record t { producers = put producer (reactivated location prod) t.producers }))
  register_producer producer location none t = do
    check (is_new (find producer t.producers2)) "a row with this key exists"
    ok (record t {
      producers = put producer (new_producer location) t.producers;
      producers2 = put producer new_producer2 t.producers2;
    })

  unfoldable pub regproducer : Name → ℕ → ℕ → State F → Result (State F)
  unfolding register_producer
  regproducer producer url_size location s = do
    require_auth host producer
    check (ltb url_size 512) "url too long"
    t ← register_producer producer location (find producer s.voting.producers) s.voting
    ok (record s { voting = t })

  -- What a producer has before, which is nothing for a new one.
  abbrev votes_before : Option (ProducerInfo F) → F
  votes_before none = fzero host
  votes_before (some info) = info.total_votes

  abbrev unpaid_before : Option (ProducerInfo F) → ℕ
  unpaid_before none = 0
  unpaid_before (some info) = info.unpaid_blocks

  abbrev share_before : Option (ProducerInfo2 F) → ProducerInfo2 F
  share_before none = record { votepay_share = fzero host; last_votepay_share_update = now }
  share_before (some info) = info

  -- `producer` keeps its votes and its pay, may be voted for and paid, and is at `location`.
  pub record IsRegistered (producer : Name) (location : ℕ) (before after : VoteTables F)
      : Type 0 where
    pub row : ProducerInfo F
    pub stored : find producer after.producers ≡ some row
    pub stored2 :
        find producer after.producers2 ≡ some (share_before (find producer before.producers2))
    pub votes : row.total_votes ≡ votes_before (find producer before.producers)
    pub unpaid : row.unpaid_blocks ≡ unpaid_before (find producer before.producers)
    pub active : row.is_active ≡ true
    pub located : row.location ≡ location
    pub claimed_at : row.last_claim_time ≢ 0
    pub others : OnlyAt producer before.producers after.producers
    pub others2 : OnlyAt producer before.producers2 after.producers2

  reactivated-claimed :
      (location : ℕ) (p : ProducerInfo F) → 0 < now → (reactivated location p).last_claim_time ≢ 0
  unfolding reactivated
  reactivated-claimed location p late = ground (arith, late)

  add_producer2-stored :
      (producer : Name) (prod : ProducerInfo F) (found : Option (ProducerInfo2 F))
      (t : VoteTables F)
      → find producer t.producers2 ≡ found
      → (find producer (add_producer2 producer prod found t).producers2 ≡ some (share_before found))
        × OnlyAt producer t.producers2 (add_producer2 producer prod found t).producers2
        × ((add_producer2 producer prod found t).producers ≡ t.producers)
  unfolding add_producer2 update_total_votepay_share new_producer2
  add_producer2-stored producer prod none t h =
      (find-put_same producer _ t.producers2, put-OnlyAt producer _ t.producers2, refl)
  add_producer2-stored producer prod (some info) t h =
      (h, unchanged-OnlyAt producer t.producers2, refl)

  register_producer-IsRegistered :
      (producer : Name) (location : ℕ) (found : Option (ProducerInfo F)) (t t' : VoteTables F)
      → find producer t.producers ≡ found
      → register_producer producer location found t ≡ ok t'
      → 0 < now
      → IsRegistered producer location t t'
  unfolding register_producer new_producer reactivated new_producer2
  register_producer-IsRegistered producer location (some prod) t t' e h late =
      let row = reactivated location prod in
      let t1 = record t { producers = put producer row t.producers } in
      let (second, others, same) =
        add_producer2-stored producer prod (find producer t.producers2) t1 refl in
      rw (ok_eq _ _ h) (record {
        row = row;
        stored = rw same (find-put_same producer row t.producers);
        stored2 = second;
        votes = rw e refl;
        unpaid = rw e refl;
        active = refl;
        located = refl;
        claimed_at = reactivated-claimed location prod late;
        others = rw same (put-OnlyAt producer row t.producers);
        others2 = others;
      })
  register_producer-IsRegistered producer location none t t' e h late =
      let free = is_new (find producer t.producers2) in
      let (checked, h1) = >>-eq-ok (check free _) _ h in
      let absent = is_new-none (find producer t.producers2) (check-eq-ok free _ checked) in
      rw (ok_eq _ _ h1) (record {
        row = new_producer location;
        stored = find-put_same producer _ t.producers;
        stored2 = rw absent (find-put_same producer _ t.producers2);
        votes = rw e refl;
        unpaid = rw e refl;
        active = refl;
        located = refl;
        claimed_at = omega (arith, late);
        others = put-OnlyAt producer _ t.producers;
        others2 = put-OnlyAt producer _ t.producers2;
      })

  -- A `regproducer` that does not abort, after the epoch, leaves the producer active at the location,
  -- with both rows and a time of the last claim. Its votes, unpaid blocks and second row are those it
  -- had, and nothing but the time for a new producer; no row of another producer changes.
  pub regproducer-IsRegistered :
      (producer : Name) (url_size location : ℕ) (s s' : State F)
      → regproducer producer url_size location s ≡ ok s'
      → 0 < now
      → IsRegistered producer location s.voting s'.voting
  unfolding regproducer
  regproducer-IsRegistered producer url_size location s s' h late =
      let (_, h1) = >>-eq-ok (require_auth host producer) _ h in
      let (_, h2) = >>-eq-ok (check (ltb url_size 512) _) _ h1 in
      let (t, registered, h3) =
        >>=-eq-ok (register_producer producer location (find producer s.voting.producers) s.voting)
          _ h2 in
      rw (ok_eq _ _ h3)
        (register_producer-IsRegistered producer location _ s.voting t refl registered late)
