-- ===== src/Base/Errors.antt =====
-- The outcome of an action: a value, or the message of the `check` that aborts the transaction. An
-- abort undoes every change, so it carries no state.
use Prim.Native.String.{String}
use mathlib.Core.Path.{◌≡◌, refl}
use mathlib.Core.Logic.{◌⊎◌, inl, inr}
use mathlib.Core.Bool.{Bool, true, false}
use mathlib.Core.Option.{Option, none, some}

pub data Result {ℓ} (R : Type ℓ) : Type ℓ where
  err : String → Result R
  ok : R → Result R

-- `eosio::check`
abbrev pub check : Bool → String → Result (Unit {0})
check false message = err message
check true message = ok tt

-- A lookup that aborts with a message: `require_find`, `get`.
abbrev pub require {ℓ} : {R : Type ℓ} → Option R → String → Result R
require (some row) message = ok row
require none message = err message

-- The rest of an action runs on the value of its first part.
infixl 5 ◌>>=◌
abbrev pub ◌>>=◌ {κ ℓ} : {R : Type κ} {S : Type ℓ} → Result R → (R → Result S) → Result S
err message >>= rest = err message
ok value >>= rest = rest value

infixl 5 ◌>>◌
abbrev pub ◌>>◌ {ℓ} : {S : Type ℓ} → Result (Unit {0}) → Result S → Result S
first >> rest = first >>= (λ done. rest)

-- The parts of an action that did not abort did not abort.
module _ {ℓ} {S : Type ℓ} where
  pub >>=-eq-ok {κ} :
      {R : Type κ} (first : Result R) (rest : R → Result S) {out : S}
      → first >>= rest ≡ ok out
      → (value : R) × (first ≡ ok value) × (rest value ≡ ok out)
  >>=-eq-ok (err message) rest returns = cc
  >>=-eq-ok (ok value) rest returns = (value, refl, returns)

  pub >>-eq-ok :
      (first : Result (Unit {0})) (rest : Result S) {out : S}
      → first >> rest ≡ ok out
      → (first ≡ ok tt) × (rest ≡ ok out)
  >>-eq-ok (err message) rest returns = cc
  >>-eq-ok (ok value) rest returns = (refl, returns)

pub check-eq-ok : (b : Bool) (e : String) → check b e ≡ ok tt → b ≡ true
check-eq-ok true e h = refl
check-eq-ok false e h = cc

pub Result-cases {ℓ} :
    {A : Type ℓ} (r : Result A) → ((e : String) × (r ≡ err e)) ⊎ ((a : A) × (r ≡ ok a))
Result-cases (ok a) = inr (a, refl)
Result-cases (err e) = inl (e, refl)

pub ok_eq {ℓ} : {A : Type ℓ} (a b : A) → ok b ≡ ok a → a ≡ b
ok_eq a b h = cc

pub required {ℓ} :
    {A : Type ℓ} (o : Option A) (a : A) (e : String) → require o e ≡ ok a → o ≡ some a
required none a e h = cc
required (some b) a e h = cc
