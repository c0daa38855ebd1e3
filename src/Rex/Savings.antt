-- ===== src/Rex/Savings.antt =====
-- The maturity buckets keep what they hold: contracts/eosio.system/src/rex.cpp, from
-- `process_rex_maturities` to `put_rex_savings`, with `mvtosavings` and `mvfrsavings`.
use eosio_system.Base.{zero, suc, ◌⊎◌, ℕ, ◌+◌, ◌≤◌, ◌<◌, ◌≡◌, refl, [], ◌∷◌, arith}
use eosio_system.Base.Int.{negsuc, ℤ, pos, ◌+ℤ◌, ◌≤ℤ◌, int_laws}
use eosio_system.Host.{end_of_days}
use eosio_system.State.{Buckets}
use eosio_system.Rex.Buckets.{take_one, mature, add_back, take_savings, take_back, total_of}

-- What the buckets hold together.
unfoldable pub held_in : Buckets → ℤ
held_in [] = pos 0
held_in ((t, x) ∷ b) = x +ℤ held_in b

-- The times ascend from `lo` and stay below `hi`, and no bucket is negative.
abbrev pub Ascends : ℕ → ℕ → Buckets → Type 0
Ascends lo hi [] = Unit {0}
Ascends lo hi ((t, x) ∷ b) = (lo ≤ t) × (t < hi) × (pos 0 ≤ℤ x) × Ascends (t + 1) hi b

pub Ascends-lower : (lo lo' hi : ℕ) (b : Buckets) → lo' ≤ lo → Ascends lo hi b → Ascends lo' hi b
Ascends-lower lo lo' hi [] le h = tt
Ascends-lower lo lo' hi ((t, x) ∷ b) le h = ground arith

pub held_in-nonneg : (lo hi : ℕ) (b : Buckets) → Ascends lo hi b → pos 0 ≤ℤ held_in b
unfolding held_in
held_in-nonneg lo hi [] h = omega arith
held_in-nonneg lo hi ((t, x) ∷ b) h = omega (int_laws, held_in-nonneg (t + 1) hi b h.3)

pub mature-held :
    (now : ℕ) (acc : ℤ) (b : Buckets)
    → (mature now acc b).0 +ℤ held_in (mature now acc b).1 ≡ acc +ℤ held_in b
unfolding mature held_in
mature-held now acc [] = refl
mature-held now acc ((t, x) ∷ b) = grind (int_laws, mature-held now (acc +ℤ x) b)

pub mature-Ascends :
    (now lo hi : ℕ) (acc : ℤ) (b : Buckets) → Ascends lo hi b → Ascends lo hi (mature now acc b).1
unfolding mature
mature-Ascends now lo hi acc [] h = tt
mature-Ascends now lo hi acc ((t, x) ∷ b) h =
    let rest = mature-Ascends now (t + 1) hi (acc +ℤ x) b h.3 in
    ground (arith, Ascends-lower (t + 1) lo hi (mature now (acc +ℤ x) b).1 (omega arith) rest)

-- After `process_rex_maturities` no bucket at the front is mature.
pub mature-first :
    (now : ℕ) (acc : ℤ) (b : Buckets) (t : ℕ) (x : ℤ) (r : Buckets)
    → (mature now acc b).1 ≡ (t, x) ∷ r
    → now < t
unfolding mature
mature-first now acc [] t x r e = cc
mature-first now acc ((u, y) ∷ b) t x r e = ground (arith, mature-first now (acc +ℤ y) b t x r)

pub total_of-held : (total : ℤ) (b : Buckets) → total_of total b ≡ total +ℤ held_in b
unfolding total_of held_in
total_of-held total [] = omega int_laws
total_of-held total ((t, x) ∷ b) = grind (int_laws, total_of-held (total +ℤ x) b)

pub take_savings-held : (b : Buckets) → held_in (take_savings b).1 +ℤ (take_savings b).0 ≡ held_in b
unfolding take_savings held_in
take_savings-held [] = omega int_laws
take_savings-held ((u, y) ∷ []) = grind int_laws
take_savings-held ((t, x) ∷ f ∷ b) = grind (int_laws, take_savings-held (f ∷ b))

-- Behind the savings bucket there is nothing, so without it the times end before it.
pub take_savings-Ascends :
    (lo : ℕ) (b : Buckets)
    → Ascends lo (end_of_days + 1) b
    → (pos 0 ≤ℤ (take_savings b).0) × Ascends lo end_of_days (take_savings b).1
unfolding take_savings
take_savings-Ascends lo [] h = omega arith
take_savings-Ascends lo ((u, y) ∷ []) h = ground arith
take_savings-Ascends lo ((t, x) ∷ f ∷ b) h = ground (arith, take_savings-Ascends (t + 1) (f ∷ b))

pub add_back-held : (t : ℕ) (x : ℤ) (b : Buckets) → held_in (add_back t x b) ≡ held_in b +ℤ x
unfolding add_back held_in
add_back-held t x [] = omega int_laws
add_back-held t x ((u, y) ∷ []) = grind int_laws
add_back-held t x (e ∷ f ∷ b) = grind (int_laws, add_back-held t x (f ∷ b))

pub add_back-Ascends :
    (lo t hi : ℕ) (x : ℤ) (b : Buckets)
    → Ascends lo (t + 1) b
    → lo ≤ t
    → t < hi
    → pos 0 ≤ℤ x
    → Ascends lo hi (add_back t x b)
unfolding add_back
add_back-Ascends lo t hi x [] h le lt p = omega arith
add_back-Ascends lo t hi x ((u, y) ∷ []) h le lt p = grind int_laws
add_back-Ascends lo t hi x ((u, y) ∷ f ∷ b) h le lt p =
    ground (arith, add_back-Ascends (u + 1) t hi x (f ∷ b))

-- Savings that are put back on buckets without them are read again.
pub take_savings-add_back :
    (lo : ℕ) (x : ℤ) (b : Buckets)
    → Ascends lo end_of_days b
    → take_savings (add_back end_of_days x b) ≡ (x, b)
unfolding take_savings add_back
take_savings-add_back lo x [] h = ground arith
take_savings-add_back lo x ((u, y) ∷ []) h = ground arith
take_savings-add_back lo x ((u, y) ∷ f ∷ []) h = ground arith
take_savings-add_back lo x ((u, y) ∷ f ∷ g ∷ b) h =
    rw (take_savings-add_back (u + 1) x (f ∷ g ∷ b) h.3)

-- What a round of the loop keeps, where nothing is wanted or nothing stands behind the bucket.
abbrev pub IsTaking : ℕ → ℕ → ℕ → ℤ → ℤ × Buckets → Type 0
IsTaking w lo hi held (left, r) =
    (held_in r +ℤ pos w ≡ held +ℤ left)
    × (pos 0 ≤ℤ left)
    × ((left ≡ pos 0) ⊎ (r ≡ []))
    × Ascends lo hi r

take_one-IsTaking :
    (w lo hi t : ℕ) (x held left : ℤ) (r : Buckets)
    → lo ≤ t
    → t < hi
    → pos 0 ≤ℤ x
    → IsTaking w (t + 1) hi held (left, r)
    → IsTaking w lo hi (x +ℤ held) (take_one t x (left, r))
unfolding take_one held_in
take_one-IsTaking w lo hi t x held (pos zero) r le lt p h = grind int_laws
take_one-IsTaking w lo hi t x held (pos (suc l)) [] le lt p h = grind int_laws
take_one-IsTaking w lo hi t x held (pos (suc l)) (e ∷ r) le lt p h = grind arith
take_one-IsTaking w lo hi t x held (negsuc l) r le lt p h = absurd (omega (arith, h.1))

pub take_back-IsTaking :
    (w lo hi : ℕ) (b : Buckets)
    → Ascends lo hi b
    → IsTaking w lo hi (held_in b) (take_back (pos w) b)
unfolding take_back held_in
take_back-IsTaking w lo hi [] h = grind int_laws
take_back-IsTaking w lo hi ((t, x) ∷ b) h =
    let (left, r) = take_back (pos w) b in
    take_one-IsTaking w lo hi t x (held_in b) left r h.0 h.1 h.2
      (take_back-IsTaking w (t + 1) hi b h.3)

pub Ascends-raise : (lo hi hi' : ℕ) (b : Buckets) → hi ≤ hi' → Ascends lo hi b → Ascends lo hi' b
Ascends-raise lo hi hi' [] le h = tt
Ascends-raise lo hi hi' ((t, x) ∷ b) le h = ground (arith, Ascends-raise (t + 1) hi hi' b le h.3)

-- Buckets that end before the savings bucket hold no savings.
pub take_savings_none :
    (lo : ℕ) (b : Buckets) → Ascends lo end_of_days b → take_savings b ≡ (pos 0, b)
unfolding take_savings
take_savings_none lo [] h = refl
take_savings_none lo ((u, y) ∷ []) h = ground arith
take_savings_none lo ((u, y) ∷ f ∷ b) h = rw (take_savings_none (u + 1) (f ∷ b) h.3)

pub mature-grows :
    (now lo hi : ℕ) (acc : ℤ) (b : Buckets) → Ascends lo hi b → acc ≤ℤ (mature now acc b).0
unfolding mature
mature-grows now lo hi acc [] h = omega arith
mature-grows now lo hi acc ((t, x) ∷ b) h =
    grind (int_laws, mature-grows now (t + 1) hi (acc +ℤ x) b h.3)
