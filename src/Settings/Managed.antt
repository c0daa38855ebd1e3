-- ===== src/Settings/Managed.antt =====
-- Taking a resource out of the contract's hands and giving it back, contracts/eosio.system/src/eosio.system.cpp:
-- `setacctram`, `setacctnet`, `setacctcpu`.
use eosio_system.Base.{
  ==_iff, Bool-cases, ap, inl, inr, ltb→lt, ℕ, zero, suc, ◌<◌, ◌≡◌, ◌∙◌, refl, sym, Bool, true,
  false, not, ◌&&◌, ◌||◌, Option, none, some, arith, ltb, ◌==◌, if◌then◌else◌, ok,
}
use eosio_system.Base.Int.{ℤ, pos, ◌+ℤ◌, ◌≤ℤ◌, leb_true}
use eosio_system.Host.{Host, Name}
use eosio_system.State.{State, Limits, VoterInfo}
use eosio_system.Table.{find-put_same, find}
use eosio_system.Resources.{
  has_field, set_field, is_managed, set_limits, ram_managed, net_managed, cpu_managed,
}
use eosio_system.Ram.{ram_gift_bytes}
use eosio_system.Settings.{flagged, flag, own, setacctram}

-- A test that holds of all numbers below a bound, which is found by trying them.
holds_below : (ℕ → Bool) → ℕ → Bool
holds_below test zero = true
holds_below test (suc last) =
    let earlier = holds_below test last in if test last then earlier else false

passes : (a b : Bool) → (if a then b else false) ≡ true → (a ≡ true) × (b ≡ true)
passes true b h = (refl, h)
passes false b h = cc

last_or_below : (k last : ℕ) → k < suc last → (k == last) ≡ false → k < last
last_or_below k last lt apart = ground arith

holds_at :
    (test : ℕ → Bool) (bound : ℕ)
    → holds_below test bound ≡ true
    → (k : ℕ) → k < bound
    → test k ≡ true
unfolding holds_below
holds_at test zero h k lt = absurd (omega (arith, lt))
holds_at test (suc last) h k lt =
    let (here, earlier) = passes (test last) (holds_below test last) h in
    elim (Bool-cases (k == last)) [
      | inl e ↦ ap test ((==_iff k last).0 e) ∙ here
      | inr e ↦ holds_at test last earlier k (last_or_below k last lt e)
    ]

eqb : Bool → Bool → Bool
eqb true b = b
eqb false b = not b

eqb→≡ : (a b : Bool) → eqb a b ≡ true → a ≡ b
unfolding eqb
eqb→≡ true b h = sym h
eqb→≡ false true h = cc
eqb→≡ false false h = refl

within : (a b c : Bool) → a ≡ true → b ≡ true → not (a && b) || c ≡ true → c ≡ true
within true true c ha hb h = h
within true false c ha hb h = cc
within false b c ha hb h = cc

-- Setting a flag of the three shows in that flag and in no other, and taking it back restores the others.
flag_law : ℕ → ℕ → Bool → ℕ → Bool
unfolding has_field set_field
flag_law field other value flags =
    eqb (has_field (set_field flags field value) other)
      (if field == other then value else has_field flags other)
    && ltb (set_field flags field value) 8

is_flag : ℕ → Bool
is_flag field = field == ram_managed || (field == net_managed || field == cpu_managed)

flag_law_all : ℕ → ℕ → Bool
unfolding is_flag
flag_law_all field other =
    not (is_flag field && is_flag other)
    || (holds_below (flag_law field other true) 8 && holds_below (flag_law field other false) 8)

flag_law_table : holds_below (λ field. holds_below (λ other. flag_law_all field other) 5) 5 ≡ true
unfolding holds_below flag_law_all flag_law is_flag has_field set_field eqb
flag_law_table = refl

is_flag_bound : (field : ℕ) → is_flag field ≡ true → field < 5
unfolding is_flag
is_flag_bound field h = ground (arith, h)

and_left : (a b : Bool) → a && b ≡ true → a ≡ true
and_left true b h = refl
and_left false b h = cc

and_right : (a b : Bool) → a && b ≡ true → b ≡ true
and_right true b h = h
and_right false b h = cc

flag_laws :
    (field other : ℕ) (value : Bool) (flags : ℕ)
    → flags < 8
    → is_flag field ≡ true
    → is_flag other ≡ true
    → flag_law field other value flags ≡ true
unfolding flag_law_all
flag_laws field other value flags small hf ho =
    let row =
      holds_at (λ f. holds_below (λ o. flag_law_all f o) 5) 5 flag_law_table field
        (is_flag_bound field hf) in
    let cell = holds_at (λ o. flag_law_all field o) 5 row other (is_flag_bound other ho) in
    let laws : holds_below (flag_law field other true) 8
          && holds_below (flag_law field other false) 8
        ≡ true =
      within (is_flag field) (is_flag other) _ hf ho cell in
    elim value as (λ b. flag_law field other b flags ≡ true) [
      | true ↦ holds_at (flag_law field other true) 8 (and_left _ _ laws) flags small
      | false ↦ holds_at (flag_law field other false) 8 (and_right _ _ laws) flags small
    ]

set_field-has_field :
    (flags field other : ℕ) (value : Bool)
    → flags < 8
    → is_flag field ≡ true
    → is_flag other ≡ true
    → has_field (set_field flags field value) other
      ≡ (if field == other then value else has_field flags other)
unfolding flag_law
set_field-has_field flags field other value small hf ho =
    eqb→≡ _ _ (and_left _ _ (flag_laws field other value flags small hf ho))

set_field_small :
    (flags field : ℕ) (value : Bool)
    → flags < 8
    → is_flag field ≡ true
    → set_field flags field value < 8
unfolding flag_law
set_field_small flags field value small hf =
    ltb→lt _ _ (and_right _ _ (flag_laws field field value flags small hf hf))

zero_table : holds_below (λ other. eqb (has_field 0 other) false) 5 ≡ true
unfolding holds_below eqb has_field
zero_table = refl

has_field_zero : (other : ℕ) → is_flag other ≡ true → has_field 0 other ≡ false
has_field_zero other h =
    eqb→≡ _ _ (holds_at (λ o. eqb (has_field 0 o) false) 5 zero_table other (is_flag_bound other h))

-- The flags of an account are among the three that the code defines.
abbrev pub IsFlagged : {F : Type 0} → Option (VoterInfo F) → Type 0
IsFlagged none = Unit
IsFlagged (some v) = v.flags1 < 8

module _ (host : Host) where
  open host use {F, self, has_auth}

  flagged-flags :
      (field other : ℕ) (value : Bool) (row : Option (VoterInfo F))
      → IsFlagged row
      → is_flag field ≡ true
      → is_flag other ≡ true
      → has_field (flagged host field value row).flags1 other ≡ (
          if field == other
          then value
          else elim row [ none ↦ false | some v ↦ has_field v.flags1 other ])
  unfolding flagged
  flagged-flags field other value (some v) small hf ho =
      set_field-has_field v.flags1 field other value small hf ho
  flagged-flags field other value none small hf ho =
      set_field-has_field 0 field other value (omega arith) hf ho
      ∙ ap (λ b. if field == other then value else b) (has_field_zero other ho)

  flagged_small :
      (field : ℕ) (value : Bool) (row : Option (VoterInfo F))
      → IsFlagged row
      → is_flag field ≡ true
      → (flagged host field value row).flags1 < 8
  unfolding flagged
  flagged_small field value (some v) small hf = set_field_small v.flags1 field value small hf
  flagged_small field value none small hf = set_field_small 0 field value (omega arith) hf

  -- A flag shows, and the others stay.
  flag-is_managed :
      (field other : ℕ) (value : Bool) (account : Name) (s : State F)
      → IsFlagged (find account s.voting.voters)
      → is_flag field ≡ true
      → is_flag other ≡ true
      → is_managed host other account (flag host field value account s)
        ≡ (if field == other then value else is_managed host other account s)
  unfolding flag is_managed
  flag-is_managed field other value account s small hf ho =
      rw
        (
          is_managed,
          find-put_same account (flagged host field value (find account s.voting.voters))
              s.voting.voters,
        )
        (flagged-flags field other value (find account s.voting.voters) small hf ho)

  flag-IsFlagged :
      (field : ℕ) (value : Bool) (account : Name) (s : State F)
      → IsFlagged (find account s.voting.voters)
      → is_flag field ≡ true
      → IsFlagged (find account (flag host field value account s).voting.voters)
  unfolding flag
  flag-IsFlagged field value account s small hf =
      rw
        (find-put_same account (flagged host field value (find account s.voting.voters))
          s.voting.voters)
        (flagged_small field value (find account s.voting.voters) small hf)

  set_limits_own :
      (account : Name) (l : Limits) (s : State F)
      → (if account == account then l else s.stake.limits account) ≡ l
  set_limits_own account l s = ground arith

  -- With the authority of the contract, a limit that is not negative and no unknown flag on the
  -- account, `setacctram` with a limit and then without one both succeed. In between memory is managed
  -- at that limit; after it memory is not managed, its limit is the gift and what the account owns,
  -- and the other limits and flags are as before.
  pub setacctram_round_trip :
      (account : Name) (ram : ℤ) (s : State F)
      → has_auth self ≡ true
      → pos 0 ≤ℤ ram
      → IsFlagged (find account s.voting.voters)
      → (s1 s2 : State F) × (setacctram host account (some ram) s ≡ ok s1)
        × (setacctram host account none s1 ≡ ok s2)
        × (is_managed host ram_managed account s1 ≡ true)
        × (s1.stake.limits account ≡ record (s.stake.limits account) { ram = ram })
        × (is_managed host ram_managed account s2 ≡ false)
        × (is_managed host net_managed account s2 ≡ is_managed host net_managed account s)
        × (is_managed host cpu_managed account s2 ≡ is_managed host cpu_managed account s)
        × (s2.stake.limits account ≡ record (s.stake.limits account) {
          ram = ram_gift_bytes +ℤ own host (λ r. r.ram_bytes) account s;
        })
  unfolding setacctram is_flag is_managed
  setacctram_round_trip account ram s auth enough small =
      let l1 = record (s.stake.limits account) { ram = ram } in
      let s1 = set_limits host account l1 (flag host ram_managed true account s) in
      let l2 = record (s1.stake.limits account) {
        ram = ram_gift_bytes +ℤ own host (λ r. r.ram_bytes) account s;
      } in
      let s2 = set_limits host account l2 (flag host ram_managed false account s1) in
      let small1 = flag-IsFlagged ram_managed true account s small refl in
      let taken_over = flag-is_managed ram_managed ram_managed true account s small refl refl in
      let limits1 = set_limits_own account l1 s in
      (
        s1,
        s2,
        rw (auth, leb_true (pos 0) ram enough) refl,
        rw (auth, taken_over) refl,
        taken_over,
        limits1,
        flag-is_managed ram_managed ram_managed false account s1 small1 refl refl,
        flag-is_managed ram_managed net_managed false account s1 small1 refl refl
            ∙ flag-is_managed ram_managed net_managed true account s small refl refl,
        flag-is_managed ram_managed cpu_managed false account s1 small1 refl refl
            ∙ flag-is_managed ram_managed cpu_managed true account s small refl refl,
        set_limits_own account l2 s1
            ∙ ap
                (λ (l : Limits). record l {
                  ram = ram_gift_bytes +ℤ own host (λ r. r.ram_bytes) account s;
                })
                limits1,
      )
