-- ===== src/Stake/Delay.antt =====
-- Unstaked tokens are paid out after the delay, not before, contracts/eosio.system/src/delegate_bandwidth.cpp:
-- `undelegatebw` and `refund`.
use eosio_system.Base.{
  ok_eq, required, not_taken, ℕ, ◌+◌, ◌*◌, ◌<◌, ◌≡◌, ◌≢◌, ◌∙◌, refl, sym, Bool, true, false, not,
  ◌&&◌, ◌||◌, Option, none, some, arith, leb, ◌==◌, if◌then◌else◌, leb→le, ok, check, require,
  >>=-eq-ok, >>-eq-ok, check-eq-ok,
}
use eosio_system.Base.Int.{ℤ, pos, ◌+ℤ◌, neg_ℤ, ltb_ℤ, leb_ℤ, eqb_ℤ, max_ℤ, abs_ℤ, int_laws}
use eosio_system.Host.{
  Host, Name, Asset, Sent, HasAssets, require_auth, now_sec, core, stake_account,
}
use eosio_system.State.{State, send, RefundRequest}
use eosio_system.Table.{find-put_same, Table, find, erase}
use eosio_system.Votes.{Votes}
use eosio_system.Stake.VotingPower.{update_voting_power_frame}
use eosio_system.Stake.Change.{
  neg_asset, set_delegations, store_row, move_delegation, move_total, set_off, settle_refund,
  defer_refund, refund_delay_sec, pay_change, change_stake, changebw, undelegatebw, refund,
}
use eosio_system.Stake.Sums.{chosen}
use eosio_system.Stake.Weights.{move_total-adds}
use eosio_system.Stake.Conserved.{update_rex_stake-kept}
use eosio_system.Stake.History.{later}
use eosio_system.Rex.Account.{update_rex_stake}

-- A refund that is there was requested at that second.
abbrev pub IsRequestedAt : ℕ → Option RefundRequest → Type 0
IsRequestedAt t none = Unit
IsRequestedAt t (some r) = r.request_time ≡ t

optional-IsRequestedAt :
    (t : ℕ) (gone : Bool) (r : RefundRequest)
    → r.request_time ≡ t
    → IsRequestedAt t (if gone then none else some r)
optional-IsRequestedAt t true r h = tt
optional-IsRequestedAt t false r h = h

store_row-IsRequestedAt :
    (t k : ℕ) (o : Option RefundRequest) (rows : Table RefundRequest)
    → find k (erase k rows) ≡ none
    → IsRequestedAt t o
    → IsRequestedAt t (find k (store_row k o rows))
unfolding store_row
store_row-IsRequestedAt t k none rows alone h = rw alone tt
store_row-IsRequestedAt t k (some r) rows alone h = rw (find-put_same k r rows) h

sent_or_not-stake :
    {F : Type 0} (b : Bool) (a : Sent) (s s' : State F)
    → s' ≡ (if b then send a s else s)
    → s'.stake ≡ s.stake
sent_or_not-stake true a s s' h = rw h refl
sent_or_not-stake false a s s' h = rw h refl

still_requested :
    {F : Type 0} (from t : ℕ) (s s' : State F)
    → s'.stake ≡ s.stake
    → IsRequestedAt t (find from s.stake.refunds)
    → IsRequestedAt t (find from s'.stake.refunds)
still_requested from t s s' e h = rw e h

gone_too :
    {F : Type 0} (from : ℕ) (s s' : State F)
    → s'.stake.refunds ≡ s.stake.refunds
    → find from (erase from s.stake.refunds) ≡ none
    → find from (erase from s'.stake.refunds) ≡ none
gone_too from s s' e h = rw e h

undelegates : (a b : ℤ) → ltb_ℤ (pos 0) (a +ℤ b) ≡ true → ltb_ℤ (neg_ℤ b +ℤ neg_ℤ a) (pos 0) ≡ true
undelegates a b h = grind int_laws

requested_found :
    (t : ℕ) (o : Option RefundRequest) (r : RefundRequest)
    → o ≡ some r
    → IsRequestedAt t o
    → r.request_time ≡ t
requested_found t none r e h = cc
requested_found t (some q) r e h = cc

early_or_due :
    (requested actual t : ℕ)
    → actual ≡ requested
    → t < (requested + refund_delay_sec) * 1000000
    → ¬ (leb ((actual + refund_delay_sec) * 1000000) t ≡ true)
early_or_due requested actual t e early due = absurd (omega (arith, e, early, leb→le _ _ due))

unstakes :
    (a b : ℤ)
    → leb_ℤ (pos 0) a ≡ true
    → leb_ℤ (pos 0) b ≡ true
    → ltb_ℤ (pos 0) (a +ℤ b) ≡ true
    → (ltb_ℤ (neg_ℤ b) (pos 0) || ltb_ℤ (neg_ℤ a) (pos 0)) ≡ true
unstakes a b ha hb h = grind int_laws

module _ (host : Host) (laws : HasAssets host) where
  open host use {F, asset_add, asset_sub, asset_le}

  defer_refund-stake :
      (from : Name) (r : Option RefundRequest) (s : State F)
      → (defer_refund host from r s).stake ≡ s.stake
  defer_refund-stake from none s = refl
  defer_refund-stake from (some r) s = refl

  settle_refund-IsRequestedAt :
      (net cpu : Asset) (o : Option RefundRequest) (out : Asset × Asset × Option RefundRequest)
      → settle_refund host net cpu o ≡ ok out
      → ltb_ℤ net.amount (pos 0) || ltb_ℤ cpu.amount (pos 0) ≡ true
      → IsRequestedAt (now_sec host) out.2
  unfolding settle_refund
  settle_refund-IsRequestedAt net cpu none out h e = rw (chosen _ _ _ _ h, e) refl
  settle_refund-IsRequestedAt net cpu (some r) out h e =
      let (n, e1, h1) = >>=-eq-ok (set_off host net r.net_amount) _ h in
      let (c, e2, h2) = >>=-eq-ok (set_off host cpu r.cpu_amount) _ h1 in
      let (_, h3) = >>-eq-ok (check (leb_ℤ (pos 0) (n.1).amount) _) _ h2 in
      let (_, h4) = >>-eq-ok (check (leb_ℤ (pos 0) (c.1).amount) _) _ h3 in
      rw (ok_eq _ _ h4) (optional-IsRequestedAt (now_sec host) _ _ (rw e refl))

  pay_change-IsRequestedAt :
      (source from : Name) (net cpu : Asset) (s s' : State F)
      → pay_change host source from true net cpu s ≡ ok s'
      → ltb_ℤ net.amount (pos 0) || ltb_ℤ cpu.amount (pos 0) ≡ true
      → find from (erase from s.stake.refunds) ≡ none
      → IsRequestedAt (now_sec host) (find from s'.stake.refunds)
  unfolding pay_change
  pay_change-IsRequestedAt source from net cpu s s' h e alone =
      let req = find from s.stake.refunds in
      let (out, e1, h1) = >>=-eq-ok (settle_refund host net cpu req) _ h in
      let (amount, e2, h2) = >>=-eq-ok (asset_add out.0 out.1) _ h1 in
      let refunds = store_row from out.2 s.stake.refunds in
      let s1 = record s { stake = record s.stake { refunds = refunds } } in
      let s2 = defer_refund host from out.2 s1 in
      let kept =
        sent_or_not-stake (ltb_ℤ (pos 0) amount.amount) (Sent.transfer source stake_account amount)
          s2 s' (ok_eq _ _ h2) in
      rw (kept, defer_refund-stake from out.2 s1)
        (store_row-IsRequestedAt (now_sec host) from out.2 s.stake.refunds alone
          (settle_refund-IsRequestedAt net cpu req out e1 e))

  with_refund :
      (source from : Name) (to_self undelegating : Bool) (net cpu : Asset) (s s' : State F)
      → undelegating ≡ true
      → pay_change host source from (to_self || undelegating) net cpu s ≡ ok s'
      → pay_change host source from true net cpu s ≡ ok s'
  with_refund source from true undelegating net cpu s s' e h = h
  with_refund source from false undelegating net cpu s s' e h = rw (sym e) h

  -- A refund that was requested at `r` is refused while the delay lasts.
  refund_early :
      (t requested : ℕ) (owner : Name) (s out : State F)
      → IsRequestedAt requested (find owner s.stake.refunds)
      → t < (requested + refund_delay_sec) * 1000000
      → refund (later host t) owner s ≢ ok out
  unfolding refund
  refund_early t requested owner s out requested_then early h =
      let (_, h1) = >>-eq-ok (require_auth host owner) _ h in
      let (r, e2, h2) =
        >>=-eq-ok (require (find owner s.stake.refunds) "refund request not found") _ h1 in
      let (due, h3) =
        >>-eq-ok (check (leb ((r.request_time + refund_delay_sec) * 1000000) t) _) _ h2 in
      let found = required (find owner s.stake.refunds) r _ e2 in
      let asked = requested_found requested (find owner s.stake.refunds) r found requested_then in
      let waited = check-eq-ok (leb ((r.request_time + refund_delay_sec) * 1000000) t) _ due in
      early_or_due requested r.request_time t asked early waited

  module _ (votes : Votes host) where
    change_stake-IsRequestedAt :
        (source from receiver : Name) (transfer : Bool) (net cpu total : Asset) (s s' : State F)
        → change_stake host votes source from receiver transfer net cpu total s ≡ ok s'
        → (stake_account == source) ≡ false
        → ltb_ℤ net.amount (pos 0) || ltb_ℤ cpu.amount (pos 0) ≡ true
        → ltb_ℤ (net.amount +ℤ cpu.amount) (pos 0) ≡ true
        → find from (erase from s.stake.refunds) ≡ none
        → IsRequestedAt (now_sec host) (find from s'.stake.refunds)
    unfolding change_stake
    change_stake-IsRequestedAt source from receiver transfer net cpu total s s' h other e less
          alone =
        let undelegating = ltb_ℤ (net.amount +ℤ cpu.amount) (pos 0) in
        let to_self = not transfer && from == receiver in
        let (d, e1, h1) =
          >>=-eq-ok (move_delegation host net cpu receiver (s.stake.delband from)) _ h in
        let (s1, e2, h2) =
          >>=-eq-ok (move_total host net cpu receiver (set_delegations from d s)) _ h1 in
        let (s2, e3, h3) =
          >>=-eq-ok
            (if stake_account == source
              then ok s1
              else pay_change host source from (to_self || undelegating) net cpu s1)
            _ h2 in
        let (s3, e4, h4) = >>=-eq-ok (update_rex_stake from s2) _ h3 in
        let (_, _, same_refunds, _) =
          move_total-adds host laws net cpu receiver (set_delegations from d s) s1 e2 in
        let paid = not_taken (stake_account == source) (ok s1) _ _ other e3 in
        let paid' : pay_change host source from true net cpu s1 ≡ ok s2 =
          with_refund source from to_self undelegating net cpu s1 s2 less paid in
        let (kept, _, _, _) = update_rex_stake-kept host laws from s2 s3 e4 in
        let (_, kept2, _, _, _) = update_voting_power_frame host votes from total s3 s' h4 in
        still_requested from (now_sec host) s2 s' (kept2 ∙ kept) (
          pay_change-IsRequestedAt source from net cpu s1 s2 paid' e
            (gone_too from s s1 same_refunds alone))

    -- After `undelegatebw` by an account other than the account of all stake, whose refund has one row
    -- at most, no `refund` of that account succeeds before three days have passed, also when a refund
    -- waited already.
    pub undelegatebw-delay :
        (from receiver : Name) (net cpu : Asset) (t : ℕ) (s s' out : State F)
        → undelegatebw host votes from receiver net cpu s ≡ ok s'
        → (stake_account == from) ≡ false
        → find from (erase from s.stake.refunds) ≡ none
        → t < (now_sec host + refund_delay_sec) * 1000000
        → refund (later host t) from s' ≢ ok out
    unfolding undelegatebw changebw
    undelegatebw-delay from receiver net cpu t s s' out h other alone early =
        let (cpu_ok, e1, h1) = >>=-eq-ok (asset_le (core host (pos 0)) cpu) _ h in
        let (c1, h2) = >>-eq-ok (check cpu_ok _) _ h1 in
        let (net_ok, e3, h3) = >>=-eq-ok (asset_le (core host (pos 0)) net) _ h2 in
        let (c2, h4) = >>-eq-ok (check net_ok _) _ h3 in
        let (c3, h5) = >>-eq-ok (check (ltb_ℤ (pos 0) (cpu.amount +ℤ net.amount)) _) _ h4 in
        let net' = neg_asset net in
        let cpu' = neg_asset cpu in
        let (_, h6) = >>-eq-ok (require_auth host from) _ h5 in
        let (_, h7) =
          >>-eq-ok (check (not (eqb_ℤ net'.amount (pos 0)) || not (eqb_ℤ cpu'.amount (pos 0))) _) _
            h6 in
        let (total, _, h8) = >>=-eq-ok (asset_add net' cpu') _ h7 in
        let (_, h9) =
          >>-eq-ok
            (check (leb_ℤ (max_ℤ (abs_ℤ net'.amount) (abs_ℤ cpu'.amount)) (abs_ℤ total.amount)) _) _
            h8 in
        let cpu_more =
          sym (laws.asset_le_ok (core host (pos 0)) cpu cpu_ok e1) ∙ check-eq-ok cpu_ok _ c1 in
        let net_more =
          sym (laws.asset_le_ok (core host (pos 0)) net net_ok e3) ∙ check-eq-ok net_ok _ c2 in
        let more = check-eq-ok (ltb_ℤ (pos 0) (cpu.amount +ℤ net.amount)) _ c3 in
        refund_early t (now_sec host) from s' out
          (change_stake-IsRequestedAt from from receiver false net' cpu' total s s' h9 other
            (unstakes cpu.amount net.amount cpu_more net_more more)
            (undelegates cpu.amount net.amount more) alone)
          early
