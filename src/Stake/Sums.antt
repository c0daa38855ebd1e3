-- ===== src/Stake/Sums.antt =====
-- What the tables of staked tokens hold in all, and what transfers bring into the account of all stake.
use eosio_system.Base.{
  ℕ, ◌≡◌, refl, sym, Bool, true, false, ◌&&◌, ◌||◌, Option, none, some, List, ◌++◌, arith,
  if◌then◌else◌, ok,
}
use eosio_system.Base.Int.{ℤ, pos, ◌+ℤ◌, ◌≤ℤ◌, ltb_ℤ, eqb_ℤ, int_laws, parts_eq, eq_of_parts}
use eosio_system.Host.{Sent, stake_account}
use eosio_system.Sends.{net_in, net_in-append}
use eosio_system.State.{UserResources, DelegatedBandwidth, RefundRequest, resources_empty}
use eosio_system.Table.{Table, find}
use eosio_system.Table.Sum.{sum, amount_at, sum-put, sum-erase}
use eosio_system.Stake.Change.{store_row}

-- The tokens that transfers bring into the account of all stake, less those that they take out of it.
abbrev pub staked_in : List Sent → ℤ
staked_in = net_in stake_account

abbrev pub all_delegated : Table DelegatedBandwidth → ℤ
all_delegated = sum (λ d. d.net_weight.amount +ℤ d.cpu_weight.amount)

abbrev pub all_weights : Table UserResources → ℤ
all_weights = sum (λ r. r.net_weight.amount +ℤ r.cpu_weight.amount)

abbrev pub refund_weight : RefundRequest → ℤ
refund_weight r = r.net_amount.amount +ℤ r.cpu_amount.amount

abbrev pub all_refunds : Table RefundRequest → ℤ
all_refunds = sum refund_weight

pub staked_in-append : (l m : List Sent) → staked_in (l ++ m) ≡ staked_in l +ℤ staked_in m
staked_in-append = net_in-append stake_account

-- A row that is stored counts, one that is erased does not.
pub store_row-sum {ℓ} :
    {V : Type ℓ} (f : V → ℤ) (k : ℕ) (row : Option V) (t : Table V)
    → sum f (store_row k row t) +ℤ amount_at f (find k t) ≡ sum f t +ℤ amount_at f row
unfolding store_row amount_at
store_row-sum f k none t = eq_of_parts _ _ (omega (int_laws, parts_eq _ _ (sum-erase f k t)))
store_row-sum f k (some v) t = sum-put f k v t

-- A row that is empty may be left out.
pub empty_amounts : (a b : ℤ) → eqb_ℤ a (pos 0) && eqb_ℤ b (pos 0) ≡ true → a +ℤ b ≡ pos 0
empty_amounts a b h = grind int_laws

pub empty_three :
    (a b c : ℤ) → eqb_ℤ a (pos 0) && eqb_ℤ b (pos 0) && eqb_ℤ c (pos 0) ≡ true → a +ℤ b ≡ pos 0
empty_three a b c h = grind int_laws

pub empty_total :
    (d : UserResources)
    → resources_empty d ≡ true
    → d.net_weight.amount +ℤ d.cpu_weight.amount ≡ pos 0
empty_total d h = empty_three d.net_weight.amount d.cpu_weight.amount d.ram_bytes h

pub not_less : (a b : ℤ) → ltb_ℤ a b ≡ false → b ≤ℤ a
not_less a b h = ground arith

pub chosen {ℓ} :
    {A : Type ℓ} (b : Bool) (x y out : A)
    → (if b then ok x else ok y) ≡ ok out
    → out ≡ (if b then x else y)
chosen true x y out h = cc
chosen false x y out h = cc

pub neither : (a b : Bool) → a || b ≡ false → (a ≡ false) × (b ≡ false)
neither false b h = (refl, h)
neither true b h = cc

pub kept_amount {ℓ} :
    {V : Type ℓ} (f : V → ℤ) (gone : Bool) (v : V)
    → (gone ≡ true → f v ≡ pos 0)
    → amount_at f (if gone then none else some v) ≡ f v
unfolding amount_at
kept_amount f true v h = sym (h refl)
kept_amount f false v h = refl

pub kept_sum {ℓ} :
    {V : Type ℓ} (f : V → ℤ) (k : ℕ) (gone : Bool) (v : V) (t : Table V)
    → (gone ≡ true → f v ≡ pos 0)
    → sum f (store_row k (if gone then none else some v) t) +ℤ amount_at f (find k t)
      ≡ sum f t +ℤ f v
kept_sum f k gone v t h =
    let counted = kept_amount f gone v h in
    let stored = store_row-sum f k (if gone then none else some v) t in
    eq_of_parts _ _ (omega (int_laws, parts_eq _ _ counted, parts_eq _ _ stored))
