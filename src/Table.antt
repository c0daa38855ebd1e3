-- ===== src/Table.antt =====
-- `eosio::multi_index`: rows by primary key. The rows stand in the order of their creation; where the
-- code walks an index, the order of that index is computed.
pub mod Sum
use eosio_system.Base.{
  Bool-cases, inl, inr, ℕ, ◌≡◌, ◌≢◌, refl, Bool, true, false, Option, none, some, List, [], ◌∷◌,
  ◌==◌, if◌then◌else◌, arith, ltb, leb, ◌&&◌, ◌||◌,
}

abbrev pub Table {ℓ} : Type ℓ → Type ℓ
Table V = List (ℕ × V)

-- Whether a key is free: `emplace` aborts on a key that is there.
unfoldable pub is_new {ℓ} : {V : Type ℓ} → Option V → Bool
is_new none = true
is_new (some v) = false

pub is_new-none {ℓ} : {V : Type ℓ} → (found : Option V) → is_new found ≡ true → found ≡ none
unfolding is_new
is_new-none none h = refl
is_new-none (some v) h = absurd (ground (arith, h))

module _ {ℓ} {V : Type ℓ} where
  unfoldable pub find : ℕ → Table V → Option V
  find k [] = none
  find k ((j, v) ∷ t) = if j == k then some v else find k t

  -- `emplace` of a new key, `modify` of an old one.
  unfoldable pub put : ℕ → V → Table V → Table V
  put k v [] = (k, v) ∷ []
  put k v ((j, w) ∷ t) = if j == k then (k, v) ∷ t else (j, w) ∷ put k v t

  unfoldable pub erase : ℕ → Table V → Table V
  erase k [] = []
  erase k ((j, w) ∷ t) = if j == k then t else (j, w) ∷ erase k t

  -- `idx.begin()` of a secondary index: the row with the least secondary key, then primary key.
  before : (V → ℕ) → ℕ × V → ℕ × V → Bool
  before key (j, v) (k, w) = ltb (key v) (key w) || (key v == key w && ltb j k)

  least : (V → ℕ) → ℕ × V → Table V → ℕ × V
  least key r [] = r
  least key r (q ∷ t) = least key (if before key q r then q else r) t

  unfoldable pub first : (V → ℕ) → Table V → Option (ℕ × V)
  unfolding least before
  first key [] = none
  first key (r ∷ t) = some (least key r t)

  row_of : Table V → Option (ℕ × V) → Option (ℕ × V)
  row_of t none = none
  row_of t (some (k, v)) = elim (find k t) [ none ↦ none | some w ↦ some (k, w) ]

  -- The row at `idx.begin()`, which the index finds by its primary key.
  unfoldable pub begin : (V → ℕ) → Table V → Option (ℕ × V)
  unfolding row_of first find
  begin key t = row_of t (first key t)

  row_of-find :
      (t : Table V) (r : Option (ℕ × V)) (k : ℕ) (v : V)
      → row_of t r ≡ some (k, v)
      → find k t ≡ some v
  unfolding row_of
  row_of-find t none k v e = cc
  row_of-find t (some (j, w)) k v e = ground arith

  pub begin-find :
      (key : V → ℕ) (t : Table V) (k : ℕ) (v : V) → begin key t ≡ some (k, v) → find k t ≡ some v
  unfolding begin
  begin-find key t k v e = row_of-find t (first key t) k v e

  -- The rows in the order of a secondary index.
  insert : (V → ℕ) → ℕ × V → Table V → Table V
  insert key r [] = r ∷ []
  insert key r (q ∷ t) = let rest = insert key r t in if before key r q then r ∷ q ∷ t else q ∷ rest

  unfoldable pub sorted : (V → ℕ) → Table V → Table V
  unfolding insert before
  sorted key [] = []
  sorted key (r ∷ t) = insert key r (sorted key t)

  pub find-put :
      (k j : ℕ) (v : V) (t : Table V) → find j (put k v t) ≡ (if k == j then some v else find j t)
  unfolding find put
  find-put k j v [] = refl
  find-put k j v ((i, w) ∷ t) = ground (arith, find-put k j v t)

  pub find-erase_ne : (k j : ℕ) (t : Table V) → k ≢ j → find j (erase k t) ≡ find j t
  unfolding find erase
  find-erase_ne k j [] h = refl
  find-erase_ne k j ((i, w) ∷ t) h = ground (arith, find-erase_ne k j t h)

  pub find-put_same : (k : ℕ) (v : V) (t : Table V) → find k (put k v t) ≡ some v
  find-put_same k v t = ground (arith, find-put k k v t)

  -- Every row but one is as it was.
  abbrev pub OnlyAt : ℕ → Table V → Table V → Type ℓ
  OnlyAt k t t' = (other : ℕ) → find other t' ≡ (if k == other then find k t' else find other t)

  pub put-OnlyAt : (k : ℕ) (v : V) (t : Table V) → OnlyAt k t (put k v t)
  put-OnlyAt k v t other = ground (arith, find-put k other v t, find-put k k v t)

  pub unchanged-OnlyAt : (k : ℕ) (t : Table V) → OnlyAt k t t
  unchanged-OnlyAt k t other = elim (Bool-cases (k == other)) [
    | inl e ↦ let same : k ≡ other = ground (arith, e) in rw (e, same) refl
    | inr e ↦ rw e refl
  ]
