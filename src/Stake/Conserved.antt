-- ===== src/Stake/Conserved.antt =====
-- Staking keeps the account of all stake in step with the tables,
-- contracts/eosio.system/src/delegate_bandwidth.cpp.
use eosio_system.Base.{
  ok_eq, required, not_taken, ℕ, ◌+◌, ◌*◌, ◌≡◌, ◌∙◌, refl, sym, inl, inr, Bool, true, false, not,
  ◌&&◌, ◌||◌, [], ◌∷◌, ◌++◌, arith, leb, ◌==◌, if◌then◌else◌, Option-cases, ok, check, require,
  >>=-eq-ok, >>-eq-ok,
}
use eosio_system.Base.Int.{
  ℤ, pos, ◌+ℤ◌, ltb_ℤ, leb_ℤ, eqb_ℤ, max_ℤ, abs_ℤ, int_laws, parts_eq, eq_of_parts,
}
use eosio_system.Host.{Host, Name, Asset, Sent, HasAssets, require_auth, core, stake_account}
use eosio_system.State.{State, DelegatedBandwidth, RefundRequest}
use eosio_system.Table.{Table, find, erase}
use eosio_system.Table.Sum.{amount_at, sum-erase}
use eosio_system.Votes.{Votes}
use eosio_system.Rex.Account.{update_rex_stake, revalue}
use eosio_system.Rex.Pool.{rex_available}
use eosio_system.Stake.VotingPower.{update_voting_power_frame}
use eosio_system.Stake.Change.{
  neg_asset, set_delegations, move_delegation, move_total, pay_change, refund_delay_sec,
  change_stake, changebw, delegatebw, undelegatebw, refund,
}
use eosio_system.Stake.Sums.{
  staked_in, all_delegated, all_weights, all_refunds, refund_weight, staked_in-append,
}
use eosio_system.Stake.Weights.{move_delegation-adds, move_total-adds}
use eosio_system.Stake.Payment.{pay_change-balance}

-- What the contract holds for its users: what is staked, and what is on its way back to them.
abbrev pub owed : {F : Type 0} → State F → ℤ
owed s = all_weights s.stake.userres +ℤ all_refunds s.stake.refunds

covered : (a : Bool) (x : ℤ) → (a || ltb_ℤ x (pos 0)) || leb_ℤ (pos 0) x ≡ true
covered true x = refl
covered false x = ground arith

set_delegations-own :
    (owner : Name) (t : Table DelegatedBandwidth) (f : Name → Table DelegatedBandwidth)
    → (if owner == owner then t else f owner) ≡ t
set_delegations-own owner t f = ground arith

-- A change is the delegation, then the total, then the payment.
assembled :
    {F : Type 0} (from : Name) (change : ℤ) (s s1 s2 s' : State F) (d : Table DelegatedBandwidth)
    → s'.stake ≡ s2.stake
    → s'.sent ≡ s2.sent
    → (all_delegated d ≡ all_delegated (s.stake.delband from) +ℤ change)
      × (s1.stake.delband ≡ (set_delegations from d s).stake.delband)
    → (all_weights s1.stake.userres ≡ all_weights s.stake.userres +ℤ change)
      × (s1.stake.refunds ≡ s.stake.refunds)
      × (s1.sent ≡ s.sent)
    → all_refunds s2.stake.refunds +ℤ change +ℤ staked_in s1.sent
      ≡ all_refunds s1.stake.refunds +ℤ staked_in s2.sent
    → s2.stake.userres ≡ s1.stake.userres
    → s2.stake.delband ≡ s1.stake.delband
    → (owed s' +ℤ staked_in s.sent ≡ owed s +ℤ staked_in s'.sent)
      × (all_weights s'.stake.userres ≡ all_weights s.stake.userres +ℤ change)
      × (all_delegated (s'.stake.delband from) ≡ all_delegated (s.stake.delband from) +ℤ change)
assembled from change s s1 s2 s' d kept sent (delegated, band) (weighed, refunds, sent1) balance
      totals band2 =
    let balance' : all_refunds s2.stake.refunds +ℤ change +ℤ staked_in s.sent
        ≡ all_refunds s.stake.refunds +ℤ staked_in s2.sent =
      rw (sym refunds, sym sent1) balance in
    rw (kept, sent, totals, band2, band)
      (
        eq_of_parts _ _ (omega (int_laws, parts_eq _ _ weighed, parts_eq _ _ balance')),
        weighed,
        rw (set_delegations-own from d s.stake.delband) delegated,
      )

differ : (a b : ℕ) → (a == b) ≡ false → (b == a) ≡ false
differ a b h = ground arith

refunded :
    {F : Type 0} (owner : Name) (r : RefundRequest) (amount : Asset) (s s' : State F)
    → s' ≡ (record s {
      stake = record s.stake { refunds = erase owner s.stake.refunds };
      sent = s.sent ++ (Sent.transfer stake_account owner amount ∷ []);
    })
    → (stake_account == owner) ≡ false
    → all_refunds (erase owner s.stake.refunds) +ℤ amount.amount ≡ all_refunds s.stake.refunds
    → owed s' +ℤ staked_in s.sent ≡ owed s +ℤ staked_in s'.sent
unfolding eosio_system.Sends.net_in
refunded owner r amount s s' result other erased =
    rw
      (
        result,
        staked_in-append s.sent (Sent.transfer stake_account owner amount ∷ []),
        differ stake_account owner other,
      )
      (eq_of_parts _ _ (omega (int_laws, parts_eq _ _ erased)))

module _ (host : Host) (laws : HasAssets host) where
  open host use {F, asset_add, asset_sub, asset_le}

  pub update_rex_stake-kept :
      (voter : Name) (s s' : State F)
      → update_rex_stake voter s ≡ ok s'
      → (s'.stake ≡ s.stake) × (s'.ram ≡ s.ram) × (s'.auctions ≡ s.auctions) × (s'.sent ≡ s.sent)
  unfolding update_rex_stake
  update_rex_stake-kept voter s s' h =
      let (out, e1, h1) =
        >>=-eq-ok (if rex_available s.rex then revalue voter s.rex else ok (pos 0, s.rex)) _ h in
      elim (Option-cases (find voter s.voting.voters)) [
        | inl e ↦ rw (ok_eq _ _ h1, e) (refl, refl, refl, refl)
        | inr (v, e) ↦ rw (ok_eq _ _ h1, e) (refl, refl, refl, refl)
      ]

  module _ (votes : Votes host) where
    change_stake-owed :
        (source from receiver : Name) (transfer : Bool) (net cpu total : Asset) (s s' : State F)
        → change_stake host votes source from receiver transfer net cpu total s ≡ ok s'
        → (stake_account == source) ≡ false
        → (owed s' +ℤ staked_in s.sent ≡ owed s +ℤ staked_in s'.sent)
          × (all_weights s'.stake.userres
              ≡ all_weights s.stake.userres +ℤ (net.amount +ℤ cpu.amount))
          × (all_delegated (s'.stake.delband from)
              ≡ all_delegated (s.stake.delband from) +ℤ (net.amount +ℤ cpu.amount))
    unfolding change_stake
    change_stake-owed source from receiver transfer net cpu total s s' h other =
        let undelegating = ltb_ℤ (net.amount +ℤ cpu.amount) (pos 0) in
        let to_self = not transfer && from == receiver in
        let (d, e1, h1) =
          >>=-eq-ok (move_delegation host net cpu receiver (s.stake.delband from)) _ h in
        let (s1, e2, h2) =
          >>=-eq-ok (move_total host net cpu receiver (set_delegations from d s)) _ h1 in
        let (s2, e3, h3) =
          >>=-eq-ok
            (if stake_account == source
              then ok s1
              else pay_change host source from (to_self || undelegating) net cpu s1)
            _ h2 in
        let (s3, e4, h4) = >>=-eq-ok (update_rex_stake from s2) _ h3 in
        let delegated =
          move_delegation-adds host laws net cpu receiver (s.stake.delband from) d e1 in
        let (weighed, same_band, same_refunds, same_sent) =
          move_total-adds host laws net cpu receiver (set_delegations from d s) s1 e2 in
        let paid : pay_change host source from (to_self || undelegating) net cpu s1 ≡ ok s2 =
          not_taken (stake_account == source) (ok s1) _ _ other e3 in
        let (balance, same_totals, same_band2) =
          pay_change-balance host laws source from (to_self || undelegating) net cpu s1 s2 paid
            (differ stake_account source other) (covered to_self (net.amount +ℤ cpu.amount)) in
        let (kept, _, _, same_sent2) = update_rex_stake-kept from s2 s3 e4 in
        let (_, kept2, _, _, same_sent3) =
          update_voting_power_frame host votes from total s3 s' h4 in
        assembled from (net.amount +ℤ cpu.amount) s s1 s2 s' d (kept2 ∙ kept)
          (same_sent3 ∙ same_sent2) (delegated, same_band) (weighed, same_refunds, same_sent)
          balance same_totals same_band2

    -- `changebw`, when it does not abort and the payer is not the account of all stake, adds the
    -- change to the delegations of the account that stakes and to the totals, and what the weights and
    -- refunds of all grow by is what transfers bring into the account of all stake.
    pub changebw-owed :
        (from receiver : Name) (net cpu : Asset) (transfer : Bool) (s s' : State F)
        → changebw host votes from receiver net cpu transfer s ≡ ok s'
        → (stake_account == from) ≡ false
        → (owed s' +ℤ staked_in s.sent ≡ owed s +ℤ staked_in s'.sent)
          × (all_weights s'.stake.userres
              ≡ all_weights s.stake.userres +ℤ (net.amount +ℤ cpu.amount))
          × (all_delegated (s'.stake.delband (if transfer then receiver else from))
              ≡ all_delegated (s.stake.delband (if transfer then receiver else from))
                +ℤ (net.amount +ℤ cpu.amount))
    unfolding changebw
    changebw-owed from receiver net cpu transfer s s' h other =
        let (_, h1) = >>-eq-ok (require_auth host from) _ h in
        let (_, h2) =
          >>-eq-ok (check (not (eqb_ℤ net.amount (pos 0)) || not (eqb_ℤ cpu.amount (pos 0))) _) _
            h1 in
        let (total, e3, h3) = >>=-eq-ok (asset_add net cpu) _ h2 in
        let (_, h4) =
          >>-eq-ok
            (check (leb_ℤ (max_ℤ (abs_ℤ net.amount) (abs_ℤ cpu.amount)) (abs_ℤ total.amount)) _) _
            h3 in
        let staker = if transfer then receiver else from in
        change_stake-owed from staker receiver transfer net cpu total s s' h4 other

    pub delegatebw-owed :
        (from receiver : Name) (net cpu : Asset) (transfer : Bool) (s s' : State F)
        → delegatebw host votes from receiver net cpu transfer s ≡ ok s'
        → (stake_account == from) ≡ false
        → owed s' +ℤ staked_in s.sent ≡ owed s +ℤ staked_in s'.sent
    unfolding delegatebw
    delegatebw-owed from receiver net cpu transfer s s' h other =
        let (cpu_ok, _, h1) = >>=-eq-ok (asset_le (core host (pos 0)) cpu) _ h in
        let (_, h2) = >>-eq-ok (check cpu_ok _) _ h1 in
        let (net_ok, _, h3) = >>=-eq-ok (asset_le (core host (pos 0)) net) _ h2 in
        let (_, h4) = >>-eq-ok (check net_ok _) _ h3 in
        let (_, h5) = >>-eq-ok (check (ltb_ℤ (pos 0) (net.amount +ℤ cpu.amount)) _) _ h4 in
        let (_, h6) = >>-eq-ok (check (not transfer || not (from == receiver)) _) _ h5 in
        (changebw-owed from receiver net cpu transfer s s' h6 other).0

    pub undelegatebw-owed :
        (from receiver : Name) (net cpu : Asset) (s s' : State F)
        → undelegatebw host votes from receiver net cpu s ≡ ok s'
        → (stake_account == from) ≡ false
        → owed s' +ℤ staked_in s.sent ≡ owed s +ℤ staked_in s'.sent
    unfolding undelegatebw
    undelegatebw-owed from receiver net cpu s s' h other =
        let (cpu_ok, _, h1) = >>=-eq-ok (asset_le (core host (pos 0)) cpu) _ h in
        let (_, h2) = >>-eq-ok (check cpu_ok _) _ h1 in
        let (net_ok, _, h3) = >>=-eq-ok (asset_le (core host (pos 0)) net) _ h2 in
        let (_, h4) = >>-eq-ok (check net_ok _) _ h3 in
        let (_, h5) = >>-eq-ok (check (ltb_ℤ (pos 0) (cpu.amount +ℤ net.amount)) _) _ h4 in
        (changebw-owed from receiver (neg_asset net) (neg_asset cpu) false s s' h5 other).0

  pub refund-owed :
      (owner : Name) (s s' : State F)
      → refund host owner s ≡ ok s'
      → (stake_account == owner) ≡ false
      → owed s' +ℤ staked_in s.sent ≡ owed s +ℤ staked_in s'.sent
  unfolding refund eosio_system.Sends.net_in amount_at
  refund-owed owner s s' h other =
      let (_, h1) = >>-eq-ok (require_auth host owner) _ h in
      let (r, e2, h2) =
        >>=-eq-ok (require (find owner s.stake.refunds) "refund request not found") _ h1 in
      let (_, h3) =
        >>-eq-ok (check (leb ((r.request_time + refund_delay_sec) * 1000000) host.now) _) _ h2 in
      let (amount, e4, h4) = >>=-eq-ok (asset_add r.net_amount r.cpu_amount) _ h3 in
      let (paid, _) = laws.asset_add_ok r.net_amount r.cpu_amount amount e4 in
      let found = required (find owner s.stake.refunds) r _ e2 in
      let erased = sum-erase refund_weight owner s.stake.refunds in
      let here : amount_at refund_weight (find owner s.stake.refunds) ≡ refund_weight r =
        rw found refl in
      refunded owner r amount s s' (ok_eq _ _ h4) other (
        eq_of_parts _ _
          (omega (int_laws, parts_eq _ _ paid, parts_eq _ _ erased, parts_eq _ _ here)))
