-- ===== src/Stake/Payment.antt =====
-- What a change is paid with, contracts/eosio.system/src/delegate_bandwidth.cpp: the refund, and a transfer.
use eosio_system.Base.{
  ok_eq, ◌≡◌, refl, inl, inr, Bool, true, false, ◌||◌, Option, none, some, [], ◌∷◌, ◌++◌, arith,
  ◌==◌, if◌then◌else◌, Bool-cases, ok, check, >>=-eq-ok, >>-eq-ok,
}
use eosio_system.Base.Int.{
  pos, ◌+ℤ◌, ◌≤ℤ◌, ltb_ℤ, leb_ℤ, int_laws, parts_eq, eq_of_parts, leb_ℤ→le, ltb_ℤ→lt,
}
use eosio_system.Host.{Host, Name, Asset, Sent, HasAssets, now_sec, stake_account}
use eosio_system.State.{State, send, RefundRequest, refund_empty}
use eosio_system.Table.{find}
use eosio_system.Table.Sum.{amount_at}
use eosio_system.Stake.Change.{
  store_row, set_off, give_back, settle_refund, pay_change, defer_refund, refund_delay_sec,
}
use eosio_system.Stake.Sums.{
  staked_in, all_refunds, refund_weight, staked_in-append, store_row-sum, empty_amounts, not_less,
  kept_amount, chosen, neither,
}

module _ (host : Host) (laws : HasAssets host) where
  open host use {F, asset_add, asset_sub}

  -- What a change and a refund leave after they are set off: the payment is not negative.
  set_off-balance :
      (balance amount : Asset) (out : Asset × Asset)
      → set_off host balance amount ≡ ok out
      → ((out.1).amount +ℤ balance.amount ≡ amount.amount +ℤ (out.0).amount)
        × (pos 0 ≤ℤ (out.0).amount)
  unfolding set_off
  set_off-balance balance amount out h =
      let (left, e1, h1) = >>=-eq-ok (asset_sub amount balance) _ h in
      let (less, _) = laws.asset_sub_ok amount balance left e1 in
      elim (Bool-cases (ltb_ℤ left.amount (pos 0))) [
        | inl e ↦
            rw (ok_eq _ _ h1, e)
              (
                eq_of_parts _ _ (omega (int_laws, parts_eq _ _ less)),
                omega (int_laws, ltb_ℤ→lt left.amount (pos 0) e),
              )
        | inr e ↦
            rw (ok_eq _ _ h1, e)
              (eq_of_parts _ _ (omega (int_laws, parts_eq _ _ less)), omega arith)
      ]

  give_back-balance :
      (balance : Asset)
      → ((give_back host balance).1.amount +ℤ balance.amount ≡ (give_back host balance).0.amount)
        × (pos 0 ≤ℤ (give_back host balance).0.amount)
  unfolding give_back
  give_back-balance balance = elim (Bool-cases (ltb_ℤ balance.amount (pos 0))) [
    | inl e ↦ rw e (omega int_laws, omega arith)
    | inr e ↦ rw e (omega int_laws, omega (arith, not_less balance.amount (pos 0) e))
  ]

  -- Whatever the refund, what it grows by is what is paid less what is staked.
  settle_refund-balance :
      (net cpu : Asset) (o : Option RefundRequest) (out : Asset × Asset × Option RefundRequest)
      → settle_refund host net cpu o ≡ ok out
      → (amount_at refund_weight out.2 +ℤ (net.amount +ℤ cpu.amount)
          ≡ amount_at refund_weight o +ℤ ((out.0).amount +ℤ (out.1).amount))
        × (pos 0 ≤ℤ (out.0).amount)
        × (pos 0 ≤ℤ (out.1).amount)
  unfolding settle_refund amount_at
  settle_refund-balance net cpu (some r) out h =
      let (n, e1, h1) = >>=-eq-ok (set_off host net r.net_amount) _ h in
      let (c, e2, h2) = >>=-eq-ok (set_off host cpu r.cpu_amount) _ h1 in
      let (_, h3) = >>-eq-ok (check (leb_ℤ (pos 0) (n.1).amount) _) _ h2 in
      let (_, h4) = >>-eq-ok (check (leb_ℤ (pos 0) (c.1).amount) _) _ h3 in
      let (net_moved, net_paid) = set_off-balance net r.net_amount n e1 in
      let (cpu_moved, cpu_paid) = set_off-balance cpu r.cpu_amount c e2 in
      let unstaked = ltb_ℤ net.amount (pos 0) || ltb_ℤ cpu.amount (pos 0) in
      let r' = record r {
        request_time = if unstaked then now_sec host else r.request_time;
        net_amount = n.1;
        cpu_amount = c.1;
      } in
      let counted =
        kept_amount refund_weight (refund_empty r') r' (empty_amounts (n.1).amount (c.1).amount) in
      rw (ok_eq _ _ h4) (
        eq_of_parts _ _ (
            omega (int_laws, parts_eq _ _ counted, parts_eq _ _ net_moved, parts_eq _ _ cpu_moved)),
        net_paid,
        cpu_paid,
      )
  settle_refund-balance net cpu none out h =
      let (net_moved, net_paid) = give_back-balance net in
      let (cpu_moved, cpu_paid) = give_back-balance cpu in
      elim (Bool-cases (ltb_ℤ net.amount (pos 0) || ltb_ℤ cpu.amount (pos 0))) [
        | inl e ↦
            rw (chosen _ _ _ _ h, e)
              (
                eq_of_parts _ _ (omega (int_laws, parts_eq _ _ net_moved, parts_eq _ _ cpu_moved)),
                net_paid,
                cpu_paid,
              )
        | inr e ↦
            let (net_more, cpu_more) = neither _ _ e in
            rw (chosen _ _ _ _ h, e)
              (
                eq_of_parts _ _ (omega int_laws),
                not_less net.amount (pos 0) net_more,
                not_less cpu.amount (pos 0) cpu_more,
              )
      ]

  -- A payment that is not needed is not made; the tables stay as they are.
  pay_positive :
      (source : Name) (a : Asset) (s s' : State F)
      → s' ≡ (if ltb_ℤ (pos 0) a.amount then send (Sent.transfer source stake_account a) s else s)
      → (source == stake_account) ≡ false
      → pos 0 ≤ℤ a.amount
      → (s'.stake ≡ s.stake) × (staked_in s'.sent ≡ staked_in s.sent +ℤ a.amount)
  unfolding eosio_system.Sends.net_in
  pay_positive source a s s' paid other h = elim (Bool-cases (ltb_ℤ (pos 0) a.amount)) [
    | inl e ↦
        rw (paid, e)
          (
            refl,
            rw (staked_in-append s.sent (Sent.transfer source stake_account a ∷ []), other)
                (omega int_laws),
          )
    | inr e ↦ rw (paid, e) (refl, eq_of_parts _ _ (omega (int_laws, not_less (pos 0) a.amount e)))
  ]

  defer_refund-staked_in :
      (from : Name) (r : Option RefundRequest) (s : State F)
      → ((defer_refund host from r s).stake ≡ s.stake)
        × (staked_in (defer_refund host from r s).sent ≡ staked_in s.sent)
  unfolding eosio_system.Sends.net_in
  defer_refund-staked_in from none s =
      (refl, rw (staked_in-append s.sent (Sent.cancel_deferred from ∷ [])) (omega int_laws))
  defer_refund-staked_in from (some r) s =
      let sent1 = s.sent ++ (Sent.cancel_deferred from ∷ []) in
      (
        refl,
        rw
            (
              staked_in-append sent1 (Sent.deferred_refund from refund_delay_sec ∷ []),
              staked_in-append s.sent (Sent.cancel_deferred from ∷ []),
            )
            (omega int_laws),
      )

  -- Without a refund to set the change off against, it is paid in full.
  settle-balance :
      (applies : Bool) (net cpu : Asset) (o : Option RefundRequest)
      (out : Asset × Asset × Option RefundRequest)
      → (if applies then settle_refund host net cpu o else ok (net, cpu, o)) ≡ ok out
      → applies || leb_ℤ (pos 0) (net.amount +ℤ cpu.amount) ≡ true
      → (amount_at refund_weight out.2 +ℤ (net.amount +ℤ cpu.amount)
          ≡ amount_at refund_weight o +ℤ ((out.0).amount +ℤ (out.1).amount))
        × (pos 0 ≤ℤ (out.0).amount +ℤ (out.1).amount)
  settle-balance true net cpu o out h positive =
      let (moved, net_paid, cpu_paid) = settle_refund-balance net cpu o out h in
      (moved, omega (int_laws, net_paid, cpu_paid))
  settle-balance false net cpu o out h positive =
      rw (ok_eq _ _ h) (refl, leb_ℤ→le (pos 0) (net.amount +ℤ cpu.amount) positive)

  -- What the refunds of all grow by is what is paid less what is staked.
  pub pay_change-balance :
      (source from : Name) (applies : Bool) (net cpu : Asset) (s s' : State F)
      → pay_change host source from applies net cpu s ≡ ok s'
      → (source == stake_account) ≡ false
      → applies || leb_ℤ (pos 0) (net.amount +ℤ cpu.amount) ≡ true
      → (all_refunds s'.stake.refunds +ℤ (net.amount +ℤ cpu.amount) +ℤ staked_in s.sent
          ≡ all_refunds s.stake.refunds +ℤ staked_in s'.sent)
        × (s'.stake.userres ≡ s.stake.userres)
        × (s'.stake.delband ≡ s.stake.delband)
  unfolding pay_change
  pay_change-balance source from applies net cpu s s' h other positive =
      let req = find from s.stake.refunds in
      let (out, e1, h1) =
        >>=-eq-ok (if applies then settle_refund host net cpu req else ok (net, cpu, req)) _ h in
      let (amount, e2, h2) = >>=-eq-ok (asset_add out.0 out.1) _ h1 in
      let (moved, paid) = settle-balance applies net cpu req out e1 positive in
      let (total, _) = laws.asset_add_ok out.0 out.1 amount e2 in
      let refunds = store_row from out.2 s.stake.refunds in
      let s1 = record s { stake = record s.stake { refunds = refunds } } in
      let deferred = if applies then out.2 else none in
      let s2 = defer_refund host from deferred s1 in
      let (kept, unpaid) = defer_refund-staked_in from deferred s1 in
      let (kept', sent) = pay_positive source amount s2 s' (ok_eq _ _ h2) other (rw total paid) in
      let stored = store_row-sum refund_weight from out.2 s.stake.refunds in
      rw (kept', kept)
        (
          eq_of_parts _ _ (
              omega (
                int_laws,
                parts_eq _ _ stored,
                parts_eq _ _ moved,
                parts_eq _ _ total,
                parts_eq _ _ sent,
                parts_eq _ _ unpaid,
              )),
          refl,
          refl,
        )
