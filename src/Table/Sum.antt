-- ===== src/Table/Sum.antt =====
-- The sum of an amount over the rows of a table, under each update.
use eosio_system.Base.{ℕ, ◌≡◌, Option, none, some, [], ◌∷◌}
use eosio_system.Base.Int.{ℤ, pos, ◌+ℤ◌, int_laws}
use eosio_system.Table.{Table, find, put, erase}

module _ {ℓ} {V : Type ℓ} where
  unfoldable pub sum : (V → ℤ) → Table V → ℤ
  sum f [] = pos 0
  sum f ((k, v) ∷ t) = f v +ℤ sum f t

  -- The amount of a row that may be missing.
  unfoldable pub amount_at : (V → ℤ) → Option V → ℤ
  amount_at f none = pos 0
  amount_at f (some v) = f v

  pub sum-put :
      (f : V → ℤ) (k : ℕ) (v : V) (t : Table V)
      → sum f (put k v t) +ℤ amount_at f (find k t) ≡ sum f t +ℤ f v
  unfolding sum put find amount_at
  sum-put f k v [] = omega int_laws
  sum-put f k v ((j, w) ∷ t) = grind (int_laws, sum-put f k v t)

  pub sum-erase :
      (f : V → ℤ) (k : ℕ) (t : Table V) → sum f (erase k t) +ℤ amount_at f (find k t) ≡ sum f t
  unfolding sum erase find amount_at
  sum-erase f k [] = omega int_laws
  sum-erase f k ((j, w) ∷ t) = grind (int_laws, sum-erase f k t)
