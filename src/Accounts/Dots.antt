-- ===== src/Accounts/Dots.antt =====
-- The dots of a name, contracts/eosio.system/src/eosio.system.cpp: the loop of `newaccount`.
use eosio_system.Base.{
  ℕ, zero, suc, ◌*◌, ◌/◌, ◌%◌, ◌^◌, ◌<◌, ◌≡◌, ◌↔◌, refl, sym, inl, inr, true, arith, ◌==◌,
  Bool-cases,
}
use eosio_system.Accounts.{has_dot}
use native.Mathlib.Nat.{div-div-eq-div-mul, pow-succ'}

abbrev IsDot : ℕ → ℕ → Type 0
IsDot i tmp = tmp / 32 ^ i % 32 ≡ 0

IsDot-suc : (i tmp : ℕ) → tmp / 32 ^ suc i ≡ tmp / 32 / 32 ^ i
IsDot-suc i tmp = rw (pow-succ' 32 i) (sym (div-div-eq-div-mul tmp 32 (32 ^ i)))

first_dot : (tmp : ℕ) → tmp / 32 ^ 0 ≡ tmp
first_dot tmp = omega arith

has_dot-IsDot : (n tmp : ℕ) → has_dot n tmp ≡ true → (i : ℕ) × (i < n) × IsDot i tmp
unfolding has_dot
has_dot-IsDot zero tmp h = cc
has_dot-IsDot (suc n) tmp h = elim (Bool-cases (tmp % 32 == 0)) [
  | inl e ↦ (0, omega arith, rw (first_dot tmp) (ground (arith, e)))
  | inr e ↦
      let (i, below, dot) = has_dot-IsDot n (tmp / 32) (rw e at h) in
      (suc i, omega (arith, below), rw (IsDot-suc i tmp) dot)
]

IsDot-has_dot : (n tmp i : ℕ) → i < n → IsDot i tmp → has_dot n tmp ≡ true
unfolding has_dot
IsDot-has_dot zero tmp i below dot = absurd (omega (arith, below))
IsDot-has_dot (suc n) tmp zero below dot =
    let here : tmp % 32 ≡ 0 = rw (first_dot tmp) at dot in
    let e : (tmp % 32 == 0) ≡ true = ground (arith, here) in rw e refl
IsDot-has_dot (suc n) tmp (suc i) below dot =
    let later = IsDot-has_dot n (tmp / 32) i (omega (arith, below)) (rw (IsDot-suc i tmp) at dot) in
    elim (Bool-cases (tmp % 32 == 0)) [ inl e ↦ rw e refl | inr e ↦ rw e later ]

-- The loop over `n` characters of a name, past the last four bits, finds a dot exactly if one of them
-- has five zero bits.
pub has_dot_lem :
    (n newact : ℕ)
    → (has_dot n (newact / 16) ≡ true) ↔ ((i : ℕ) × (i < n) × (newact / (16 * 32 ^ i) % 32 ≡ 0))
has_dot_lem n newact = (
  λ h.
      let (i, below, dot) = has_dot-IsDot n (newact / 16) h in
      (i, below, rw (sym (div-div-eq-div-mul newact 16 (32 ^ i))) dot),
  λ (i, below, dot).
      IsDot-has_dot n (newact / 16) i below (rw (div-div-eq-div-mul newact 16 (32 ^ i)) dot),
)
