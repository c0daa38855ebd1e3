-- ===== src/Ram.antt =====
-- The memory market, contracts/eosio.system/src/delegate_bandwidth.cpp and eosio.system.cpp.
pub mod Supply
use eosio_system.Base.{
  ℕ, zero, suc, ◌+◌, ◌-◌, ◌*◌, ◌/◌, ◌%◌, ◌^◌, ◌≤◌, ◌<◌, ◌≡◌, ◌≢◌, ◌↔◌, ◌⊎◌, ◌∙◌, refl, sym, ap, inl,
  inr, Bool, true, false, not, ◌&&◌, ◌||◌, Option, none, some, List, [], ◌∷◌, ◌++◌, arith, ltb, leb,
  ◌==◌, if◌then◌else◌, Bool-cases, Option-cases, Result, ok, err, ◌>>=◌, ◌>>◌, check, require,
  >>=-eq-ok, >>-eq-ok, check-eq-ok, Result-cases, length, All, String,
}
use eosio_system.Base.Int.{
  ℤ, pos, negsuc, pos_part, neg_part, sub_ℕ, ◌+ℤ◌, ◌-ℤ◌, ◌*ℤ◌, neg_ℤ, ◌≤ℤ◌, ◌<ℤ◌, ltb_ℤ, leb_ℤ,
  eqb_ℤ, min_ℤ, max_ℤ, abs_ℤ, quot, rem, u128, i64, int_laws, parts_eq, +ℤ_parts, -ℤ_parts,
  eq_of_parts, sub_zero, sub_add, add_sub, eqb_refl, leb_true, +ℤ_pos, -ℤ_pos, i64_small,
  u128_small, eq_pos,
}
use eosio_system.Host.{
  Host, Name, is_set, Symbol, Asset, asset, add_amount, sub_amount, set_amount, Sent, Double,
  HasAssets, require_auth, now_sec, core, seconds_per_day, seconds_per_hour, seconds_per_year,
  useconds_per_day, useconds_per_year, blocks_per_day, end_of_days, rex_account, names_account,
  stake_account, ram_account, ramfee_account, saving_account, bpay_account, vpay_account,
  reserv_account, eosio, b1,
}
use eosio_system.State.{
  State, send, RexPool, RexReturnPool, Buckets, RexBalance, RexLoan, RexOrder, RexTables,
  UserResources, DelegatedBandwidth, RefundRequest, Limits, StakeTables, resources_empty,
  delegation_empty, refund_empty, VoterInfo, VoteTables, ExchangeState, RamTables, NameBid,
  NameTables,
}
use eosio_system.Table.{
  Table, find, put, erase, first, find-put, find-erase_ne, sorted, begin, begin-find,
}
use eosio_system.Table.Sum.{sum, amount_at, sum-put, sum-erase}
use eosio_system.Channels.{Channels}
use eosio_system.Market.{direct_convert, get_bancor_input}
use eosio_system.Resources.{is_managed, set_limits, set_userres, ram_managed}

abbrev pub ram_symbol : Symbol
ram_symbol = 0x4d41_5200

abbrev pub ram_gift_bytes : ℤ
ram_gift_bytes = pos 1400

abbrev pub set_ram : {F : Type 0} → RamTables → State F → State F
set_ram r s = record s { ram = r }

-- More memory, in the market and in all.
unfoldable pub add_ram : ℤ → ℕ → RamTables → Result RamTables
add_ram delta max_ram_size r = do
  m ← require r.rammarket "cannot pass end iterator to modify"
  ok (record r {
    rammarket = some (record m { base = add_amount m.base delta });
    max_ram_size = max_ram_size;
  })

module _ (host : Host) where
  open host use {F, self, slot, core_symbol, of_int, fdiv, to_i64}

  -- The product is one of `uint32_t`.
  unfoldable pub update_ram_supply : RamTables → Result RamTables
  unfolding add_ram
  update_ram_supply r =
      let new_ram = (slot + 2 ^ 32 - r.last_ram_increase) * r.new_ram_per_block % 2 ^ 32 in
      if leb slot r.last_ram_increase
      then ok r
      else add_ram (pos new_ram) ((r.max_ram_size + new_ram) % 2 ^ 64) r
        >>= (λ r'. ok (record r' { last_ram_increase = slot }))

  unfoldable pub setram : ℕ → State F → Result (State F)
  unfolding add_ram
  setram max_ram_size s = do
    require_auth host self
    check (ltb s.ram.max_ram_size max_ram_size) "ram may only be increased"
    check (ltb max_ram_size (2 ^ 50)) "ram size is unrealistic"
    check (ltb s.ram.total_ram_bytes_reserved max_ram_size) "attempt to set max below reserved"
    r ← add_ram (i64 max_ram_size -ℤ i64 s.ram.max_ram_size) max_ram_size s.ram
    ok (set_ram r s)

  unfoldable pub setramrate : ℕ → State F → Result (State F)
  unfolding update_ram_supply
  setramrate bytes_per_block s = do
    require_auth host self
    r ← update_ram_supply s.ram
    ok (set_ram (record r { new_ram_per_block = bytes_per_block }) s)

  -- A fee of .5%, rounded up.
  abbrev pub ram_fee : ℤ → ℤ
  ram_fee amount = quot (amount +ℤ pos 199) 200

  -- The limit of an account whose memory is not managed by hand.
  unfoldable pub limit_ram : Name → ℤ → State F → State F
  limit_ram account ram_bytes s =
      let l = s.stake.limits account in
      if is_managed host ram_managed account s
      then s
      else set_limits host account (record l { ram = ram_bytes +ℤ ram_gift_bytes }) s

  -- What the market does when bytes are bought, and what is booked for them.
  unfoldable pub take_ram : Asset → RamTables → Result (ℤ × RamTables)
  take_ram payment r = do
    m ← require r.rammarket "ram market does not exist"
    (out, m') ← direct_convert host payment ram_symbol m
    check (ltb_ℤ (pos 0) out.amount) "must reserve a positive amount"
    ok (
      out.amount,
      record r {
        rammarket = some m';
        total_ram_bytes_reserved = (r.total_ram_bytes_reserved + pos_part out.amount) % 2 ^ 64;
        total_ram_stake = r.total_ram_stake +ℤ payment.amount;
      },
    )

  -- What the market does when bytes, more than 0, are sold.
  unfoldable pub give_ram : ℤ → RamTables → Result (ℤ × RamTables)
  give_ram bytes r = do
    m ← require r.rammarket "cannot pass end iterator to modify"
    (out, m') ← direct_convert host (asset bytes ram_symbol) core_symbol m
    check (ltb_ℤ (pos 1) out.amount) "token amount received from selling ram is too low"
    let stake = r.total_ram_stake -ℤ out.amount
    check (leb_ℤ (pos 0) stake) "error, attempt to unstake more tokens than previously staked"
    ok (
      out.amount,
      record r {
        rammarket = some m';
        total_ram_bytes_reserved = (r.total_ram_bytes_reserved + 2 ^ 64 - pos_part bytes) % 2 ^ 64;
        total_ram_stake = stake;
      },
    )

  -- The row of an account that gets bytes.
  unfoldable pub credit_ram : ℤ → Option UserResources → UserResources
  credit_ram bytes none = record {
    net_weight = core host (pos 0);
    cpu_weight = core host (pos 0);
    ram_bytes = bytes;
  }
  credit_ram bytes (some r) = record r { ram_bytes = r.ram_bytes +ℤ bytes }

  module _ (channels : Channels host) where
    open channels use {channel_to_rex_or_pools}

    -- A fee that is paid and passed on.
    unfoldable pub pay_fee : Name → ℤ → State F → Result (State F)
    pay_fee payer fee s =
        if ltb_ℤ (pos 0) fee
        then channel_to_rex_or_pools ramfee_account (core host fee)
            (send (Sent.transfer payer ramfee_account (core host fee)) s)
        else ok s

    unfoldable pub buyram : Name → Name → Asset → State F → Result (State F)
    unfolding update_ram_supply pay_fee take_ram credit_ram limit_ram
    buyram payer receiver quant s = do
      require_auth host payer
      r ← update_ram_supply s.ram
      check (quant.symbol == core_symbol) "must buy ram with core token"
      check (ltb_ℤ (pos 0) quant.amount) "must purchase a positive amount"
      let fee = ram_fee quant.amount
      let after_fee = sub_amount quant fee
      s1 ← pay_fee payer fee (send (Sent.transfer payer ram_account after_fee) (set_ram r s))
      out ← take_ram after_fee s1.ram
      let row = credit_ram out.0 (find receiver s1.stake.userres)
      let s2 = set_userres host (put receiver row s1.stake.userres) (set_ram out.1 s1)
      ok (limit_ram receiver row.ram_bytes s2)

    unfoldable pub buyrambytes : Name → Name → ℕ → State F → Result (State F)
    unfolding buyram
    buyrambytes payer receiver bytes s = do
      m ← require s.ram.rammarket "cannot dereference end iterator"
      let cost = get_bancor_input host m.base.amount m.quote.amount (pos bytes)
      let cost_plus_fee = to_i64 (fdiv (of_int cost) (fdiv (of_int (pos 995)) (of_int (pos 1000))))
      buyram payer receiver (core host cost_plus_fee) s

    unfoldable pub sellram : Name → ℤ → State F → Result (State F)
    unfolding update_ram_supply pay_fee give_ram limit_ram
    sellram account bytes s = do
      require_auth host account
      r ← update_ram_supply s.ram
      check (ltb_ℤ (pos 0) bytes) "cannot sell negative byte"
      row ← require (find account s.stake.userres) "no resource row"
      check (leb_ℤ bytes row.ram_bytes) "insufficient quota"
      out ← give_ram bytes r
      let row' = record row { ram_bytes = row.ram_bytes -ℤ bytes }
      let s1 = set_userres host (put account row' s.stake.userres) (set_ram out.1 s)
      let s2 = limit_ram account row'.ram_bytes s1
      pay_fee account (ram_fee out.0)
          (send (Sent.transfer ram_account account (core host out.0)) s2)
