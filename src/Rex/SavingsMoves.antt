-- ===== src/Rex/SavingsMoves.antt =====
-- The actions `mvtosavings` and `mvfrsavings`, contracts/eosio.system/src/rex.cpp, on the balance that the
-- maintenance before them leaves.
use eosio_system.Base.{ℕ, ◌<◌, ◌≡◌, refl, true, ◌&&◌, some, arith, ◌==◌, ok, ◌>>=◌}
use eosio_system.Base.Int.{pos, ◌+ℤ◌, ◌≤ℤ◌, ltb_ℤ}
use eosio_system.Host.{Host, Name, Asset, asset, require_auth, end_of_days}
use eosio_system.State.{State, RexBalance}
use eosio_system.Table.{find}
use eosio_system.Votes.{Votes}
use eosio_system.Rex.Buckets.{get_rex_maturity}
use eosio_system.Rex.Moves.{IsSound, savings, move_to_savings_moves, move_from_savings_moves}
use eosio_system.Rex.Run.{runrex}
use eosio_system.Rex.Actions.{set_balance, no_change, mvtosavings, mvfrsavings}

positive_amount : (n symbol : ℕ) → 0 < n → ltb_ℤ (pos 0) (pos n) && symbol == symbol ≡ true
positive_amount n symbol h = ground (arith, h)

module _ (host : Host) (votes : Votes host) (in_time : get_rex_maturity host < end_of_days) where
  open host use {F}

  -- Before the last days of the 32-bit clock, with the authority of the owner, maintenance that
  -- returns, a sound balance after it and an update of the account that returns, `mvtosavings` of a
  -- positive amount, that with the REX of an open order and what is in savings is at most the balance,
  -- succeeds: its internal checks never fail. It leaves the state of that update with a new row for
  -- the owner, which is sound, has the amount more in savings and the same balance.
  pub mvtosavings_moves :
      (owner : Name) (n : ℕ) (rb : RexBalance) (out : Asset × State F) (s s1 : State F)
      → require_auth host owner ≡ ok tt
      → runrex host 2 s ≡ ok s1
      → find owner s1.rex.rexbalance ≡ some rb
      → no_change host votes owner s1 ≡ ok out
      → IsSound host rb
      → 0 < n
      → pos 0 ≤ℤ out.0.amount
      → pos n +ℤ out.0.amount +ℤ savings rb ≤ℤ rb.rex_balance.amount
      → (rb' : RexBalance) × (mvtosavings host votes owner (asset (pos n) rb.rex_balance.symbol) s
          ≡ ok (set_balance owner rb' out.1))
        × IsSound host rb'
        × (savings rb' ≡ savings rb +ℤ pos n)
        × (rb'.rex_balance ≡ rb.rex_balance)
  unfolding mvtosavings
  mvtosavings_moves owner n rb out s s1 auth run found updated sound positive ordered fits =
      let (rb', moved, sound', more, kept) =
        move_to_savings_moves host in_time n out.0.amount rb sound ordered fits in
      (
        rb',
        rw (auth, run, found, positive_amount n rb.rex_balance.symbol positive, updated, moved)
            refl,
        sound',
        more,
        kept,
      )

  -- Before the last days of the 32-bit clock, with the authority of the owner, maintenance that
  -- returns and a sound balance after it, `mvfrsavings` of a positive amount that is in savings comes
  -- down to the update of the account, in the state with a new row for the owner. The row is sound,
  -- has the amount less in savings and the same balance.
  pub mvfrsavings_moves :
      (owner : Name) (n : ℕ) (rb : RexBalance) (s s1 : State F)
      → require_auth host owner ≡ ok tt
      → runrex host 2 s ≡ ok s1
      → find owner s1.rex.rexbalance ≡ some rb
      → IsSound host rb
      → 0 < n
      → pos n ≤ℤ savings rb
      → (rb' : RexBalance) × (mvfrsavings host votes owner (asset (pos n) rb.rex_balance.symbol) s
          ≡ (no_change host votes owner (set_balance owner rb' s1) >>= λ out. ok out.1))
        × IsSound host rb'
        × (savings rb' +ℤ pos n ≡ savings rb)
        × (rb'.rex_balance ≡ rb.rex_balance)
  unfolding mvfrsavings
  mvfrsavings_moves owner n rb s s1 auth run found sound positive fits =
      let (rb', moved, sound', less, kept) = move_from_savings_moves host in_time n rb sound fits in
      (
        rb',
        rw (auth, run, found, positive_amount n rb.rex_balance.symbol positive, moved) refl,
        sound',
        less,
        kept,
      )
