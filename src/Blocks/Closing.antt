-- ===== src/Blocks/Closing.antt =====
-- The auctions that blocks close, contracts/eosio.system/src/producer_pay.cpp: `onblock`.
use eosio_system.Base.{
  ltb→lt, ok_eq, taken, not_taken, ℕ, ◌-◌, ◌^◌, ◌<◌, ◌≡◌, ◌⊎◌, ◌∙◌, refl, sym, ap, inl, inr, true,
  Option, none, some, arith, ltb, ◌==◌, if◌then◌else◌, Bool-cases, Option-cases, ok, >>=-eq-ok,
  >>-eq-ok,
}
use eosio_system.Base.Int.{neg_ℤ}
use eosio_system.Host.{Host, Name, require_auth, blocks_per_day}
use eosio_system.State.{State, NameBid, NameTables}
use eosio_system.Table.{Table, find, put, first}
use eosio_system.Names.{set_auctions}
use eosio_system.Blocks.{
  BlockParts, by_high_bid, rows_from, row_at, lower_bound, slots_since, is_final, count_block,
  close_auction, close_highest, every_minute, onblock,
}

-- A bid that was final is paid out, and its auction is closed. The last auction closed a day of blocks ago.
abbrev pub IsClosing : (host : Host) → ℕ → State host.F → State host.F → Type 0
IsClosing host slot s s' =
    (newname : Name) × (b : NameBid) × (find newname s.auctions.namebids ≡ some b)
    × (is_final host b s.voting.thresh_activated_stake_time ≡ true)
    × (blocks_per_day < slots_since s.auctions.last_name_close slot)
    × (s'.auctions ≡ record s.auctions {
      namebids = put newname (record b { high_bid = neg_ℤ b.high_bid }) s.auctions.namebids;
      last_name_close = slot;
    })

-- A row of an index is a row of the table.
row_at-find {ℓ} :
    {V : Type ℓ} (t : Table V) (r : Option (ℕ × V)) (k : ℕ) (v : V)
    → row_at t r ≡ some (k, v)
    → find k t ≡ some v
row_at-find t none k v e = cc
row_at-find t (some (j, w)) k v e = ground (arith, e)

closed :
    {F : Type 0} (newname : Name) (b : NameBid) (slot : ℕ) (s s1 s' : State F)
    → s'
      ≡ set_auctions
          (record s1.auctions {
            namebids = put newname (record b { high_bid = neg_ℤ b.high_bid }) s1.auctions.namebids;
          })
          s1
    → s1.auctions ≡ record s.auctions { last_name_close = slot }
    → s'.auctions ≡ record s.auctions {
      namebids = put newname (record b { high_bid = neg_ℤ b.high_bid }) s.auctions.namebids;
      last_name_close = slot;
    }
closed newname b slot s s1 s' result same = rw (result, same) refl

-- A change of other tables does not matter to an auction.
moved :
    (host : Host) (slot : ℕ) (s s1 s' : State host.F)
    → (s1.auctions ≡ s.auctions)
    → (s1.voting.thresh_activated_stake_time ≡ s.voting.thresh_activated_stake_time)
    → (s'.auctions ≡ s1.auctions) ⊎ IsClosing host slot s1 s'
    → (s'.auctions ≡ s.auctions) ⊎ IsClosing host slot s s'
moved host slot s s1 s' same time (inl kept) = inl (kept ∙ same)
moved host slot s s1 s' same time (inr (newname, b, found, final, day, result)) = inr (
  newname,
  b,
  ap (λ (a : NameTables). find newname a.namebids) (sym same) ∙ found,
  ap (λ t. is_final host b t) (sym time) ∙ final,
  (rw (sym same) day),
  result
      ∙ ap
          (λ (a : NameTables). record a {
            namebids = put newname (record b { high_bid = neg_ℤ b.high_bid }) a.namebids;
            last_name_close = slot;
          })
          same,
)

module _ (host : Host) (parts : BlockParts host) where
  open host use {F, self}
  open parts use {
    onblock_update_pool, update_elected_producers, channel_namebid_to_rex_or_pools,
    update_pool_frame, elected_frame, channel_namebid_frame,
  }

  close_highest-IsClosing :
      (slot : ℕ) (o : Option (Name × NameBid)) (s s' : State F)
      → ((k : Name) (v : NameBid) → o ≡ some (k, v) → find k s.auctions.namebids ≡ some v)
      → blocks_per_day < slots_since s.auctions.last_name_close slot
      → close_highest host parts slot o s ≡ ok s'
      → (s'.auctions ≡ s.auctions) ⊎ IsClosing host slot s s'
  unfolding close_highest close_auction
  close_highest-IsClosing slot none s s' found day h = inl (rw (ok_eq _ _ h) refl)
  close_highest-IsClosing slot (some (newname, b)) s s' found day h =
      let final = is_final host b s.voting.thresh_activated_stake_time in
      elim (Bool-cases final) [
        | inr e ↦ inl (rw (ok_eq _ _ (not_taken final _ _ _ e h)) refl)
        | inl e ↦
            let h0 = taken final _ _ _ e h in
            let s0 = set_auctions (record s.auctions { last_name_close = slot }) s in
            let (s1, e1, h1) = >>=-eq-ok (channel_namebid_to_rex_or_pools b.high_bid s0) _ h0 in
            let (same, _) = channel_namebid_frame b.high_bid s0 s1 e1 in
            inr (
              newname,
              b,
              found newname b refl,
              e,
              day,
              closed newname b slot s s1 s' (ok_eq _ _ h1) same,
            )
      ]

  every_minute-IsClosing :
      (slot : ℕ) (s s' : State F)
      → every_minute host parts slot s ≡ ok s'
      → (s'.auctions ≡ s.auctions) ⊎ IsClosing host slot s s'
  unfolding every_minute lower_bound
  every_minute-IsClosing slot s s' h =
      let minute = ltb 120 (slots_since s.pay.last_producer_schedule_update slot) in
      elim (Bool-cases minute) [
        | inr e ↦ inl (rw (ok_eq _ _ (not_taken minute _ _ _ e h)) refl)
        | inl e ↦
            let h0 = taken minute _ _ _ e h in
            let (s1, e1, h1) = >>=-eq-ok (update_elected_producers slot s) _ h0 in
            let (same, same_voting) = elected_frame slot s s1 e1 in
            let day = ltb blocks_per_day (slots_since s1.auctions.last_name_close slot) in
            moved host slot s s1 s' same (rw same_voting refl) (elim (Bool-cases day) [
              | inr e' ↦ inl (rw (ok_eq _ _ (not_taken day _ _ _ e' h1)) refl)
              | inl e' ↦
                  close_highest-IsClosing slot
                    (lower_bound by_high_bid (2 ^ 63 - 1) s1.auctions.namebids) s1 s'
                    (λ k v r.
                      row_at-find s1.auctions.namebids
                        (first by_high_bid
                          (rows_from by_high_bid (2 ^ 63 - 1) s1.auctions.namebids))
                        k v r)
                    (ltb→lt blocks_per_day (slots_since s1.auctions.last_name_close slot) e')
                    (taken day _ _ _ e' h1)
            ])
      ]

  count_block-kept :
      (producer : Name) (s : State F)
      → ((count_block host producer s).auctions ≡ s.auctions)
        × ((count_block host producer s).voting.thresh_activated_stake_time
            ≡ s.voting.thresh_activated_stake_time)
  unfolding count_block
  count_block-kept producer s = elim (Option-cases (find producer s.voting.producers)) [
    | inl e ↦ rw (count_block, e) (refl, refl)
    | inr (p, e) ↦ rw (count_block, e) (refl, refl)
  ]

  -- An `onblock` that does not abort leaves the auctions as they are, or it closes one: that of a name
  -- whose bid is positive, has stood for more than a day and follows the activation by more than two
  -- weeks, more than a day of blocks after the auction before. The bid becomes negative, the block
  -- becomes the last that closed an auction, and no other auction changes. The counts of pools, the
  -- choice of producers and the payment of the bid leave auctions and votes alone.
  pub onblock-IsClosing :
      (slot : ℕ) (producer : Name) (s s' : State F)
      → onblock host parts slot producer s ≡ ok s'
      → (s'.auctions ≡ s.auctions) ⊎ IsClosing host slot s s'
  unfolding onblock
  onblock-IsClosing slot producer s s' h =
      let (_, h1) = >>-eq-ok (require_auth host self) _ h in
      let (s1, e2, h2) = >>=-eq-ok (onblock_update_pool slot s) _ h1 in
      let (same, same_voting) = update_pool_frame slot s s1 e2 in
      let inactive = s1.voting.thresh_activated_stake_time == 0 in
      let s2 = record s1 {
        pay = record s1.pay {
          last_pervote_bucket_fill =
              if s1.pay.last_pervote_bucket_fill == 0
              then host.now
              else s1.pay.last_pervote_bucket_fill;
        };
      } in
      let (kept, time) = count_block-kept producer s2 in
      moved host slot s s1 s' same (rw same_voting refl) (elim (Bool-cases inactive) [
        | inl e ↦ inl (rw (ok_eq _ _ (taken inactive _ _ _ e h2)) refl)
        | inr e ↦ moved host slot s1 (count_block host producer s2) s' kept time (
            every_minute-IsClosing slot (count_block host producer s2) s'
              (not_taken inactive _ _ _ e h2))
      ])
