-- ===== src/Rex/Returns.antt =====
-- The return pool, from which fees flow into the REX pool over 30 days: contracts/eosio.system/src/rex.cpp,
-- `update_rex_pool` and `add_to_rex_return_pool`. Times are `time_point_sec`, modulo 2^32.
use eosio_system.Base.{
  ℕ, ◌+◌, ◌-◌, ◌*◌, ◌/◌, ◌%◌, ◌^◌, ◌&&◌, none, some, [], ◌∷◌, ltb, leb, ◌==◌, if◌then◌else◌, Result,
  ok, ◌>>=◌,
}
use eosio_system.Base.Int.{ℤ, pos, ◌+ℤ◌, ◌-ℤ◌, ◌*ℤ◌, ltb_ℤ, leb_ℤ, quot, rem}
use eosio_system.Host.{Host, Asset, add_amount, now_sec, seconds_per_hour, end_of_days}
use eosio_system.State.{RexReturnPool, Buckets, RexTables}
use eosio_system.Rex.Pool.{the_pool}

-- Constants of `rex_return_pool`, and 30 days.
abbrev pub total_intervals : ℕ
total_intervals = 30 * 144

abbrev pub dist_interval : ℕ
dist_interval = 10 * 60

abbrev pub distribution : ℕ
distribution = total_intervals * dist_interval

unfoldable pub get_elapsed_intervals : ℕ → ℕ → ℕ
get_elapsed_intervals t1 t0 = (t1 + 2 ^ 32 - t0) % 2 ^ 32 / dist_interval

-- `return_buckets[ t ] = rate`
unfoldable pub set_bucket : ℕ → ℤ → Buckets → Buckets
set_bucket t rate [] = (t, rate) ∷ []
set_bucket t rate ((u, x) ∷ b) =
    let rest = set_bucket t rate b in
    if u == t then (t, rate) ∷ b else (if ltb t u then (t, rate) ∷ (u, x) ∷ b else (u, x) ∷ rest)

-- The return pool, the buckets and `change_estimate` while a distribution is computed.
abbrev pub Distribution : Type 0
Distribution = RexReturnPool × Buckets × ℤ

-- What has become due since the last time, and the pending bucket, if its time has come.
unfoldable pub start_pending : ℕ → Distribution → Distribution
start_pending now (rp, b, change) =
    let remainder = rem rp.pending_bucket_proceeds total_intervals in
    let rate = quot (rp.pending_bucket_proceeds -ℤ remainder) total_intervals in
    let t = rp.pending_bucket_time in
    if leb t now
    then (
      record rp {
        current_rate_of_increase = rp.current_rate_of_increase +ℤ rate;
        pending_bucket_proceeds = pos 0;
        pending_bucket_time = end_of_days;
        oldest_bucket_time = if ltb t rp.oldest_bucket_time then t else rp.oldest_bucket_time;
      },
      set_bucket t rate b,
      change +ℤ (remainder +ℤ rate *ℤ pos (get_elapsed_intervals now t)),
    )
    else (rp, b, change)

unfoldable pub take_due : ℕ → Distribution → Distribution
take_due now (rp, b, change) =
    (record rp { proceeds = rp.proceeds -ℤ change; last_dist_time = now }, b, change)

-- The loop over the buckets that are older than 30 days: the surplus, their rate, and the others.
unfoldable pub drop_expired : ℕ → ℕ → ℤ → ℤ → Buckets → ℤ × ℤ × Buckets
drop_expired threshold now surplus expired [] = (surplus, expired, [])
drop_expired threshold now surplus expired ((t, x) ∷ b) =
    let overtime = get_elapsed_intervals now ((t + distribution) % 2 ^ 32) in
    let rest = drop_expired threshold now (surplus +ℤ x *ℤ pos overtime) (expired +ℤ x) b in
    if leb t threshold then rest else (surplus, expired, (t, x) ∷ b)

abbrev oldest : Buckets → ℕ
oldest [] = 0
oldest ((t, x) ∷ b) = t

unfoldable pub expire : ℕ → Distribution → Distribution
expire now (rp, b, change) =
    let threshold = (now + 2 ^ 32 - distribution) % 2 ^ 32 in
    let (surplus, expired, b') = drop_expired threshold now (pos 0) (pos 0) b in
    let over = ltb_ℤ (pos 0) surplus in
    if leb rp.oldest_bucket_time threshold
    then (
      record rp {
        oldest_bucket_time = oldest b';
        current_rate_of_increase =
            if ltb_ℤ (pos 0) expired
            then rp.current_rate_of_increase -ℤ expired
            else rp.current_rate_of_increase;
        proceeds = if over then rp.proceeds +ℤ surplus else rp.proceeds;
      },
      b',
      if over then change -ℤ surplus else change,
    )
    else (rp, b, change)

-- Not more than the proceeds is distributed.
unfoldable pub cap_change : Distribution → Distribution
cap_change (rp, b, change) =
    if ltb_ℤ (pos 0) change && ltb_ℤ rp.proceeds (pos 0)
    then (record rp { proceeds = pos 0 }, b, change +ℤ rp.proceeds)
    else (rp, b, change)

unfoldable pub distribute : ℕ → RexReturnPool → Buckets → Distribution
distribute now rp b =
    let elapsed = get_elapsed_intervals now rp.last_dist_time in
    let change = rp.current_rate_of_increase *ℤ pos elapsed in
    cap_change (expire now (take_due now (start_pending now (rp, b, change))))

module _ (host : Host) where
  open host use {asset_add}

  unfoldable pub pay_out : ℤ → RexTables → Result RexTables
  pay_out change t = do
    p ← the_pool t
    let unlent = add_amount p.total_unlent change
    lendable ← asset_add unlent p.total_lent
    ok (record t { rexpool = some (record p { total_unlent = unlent; total_lendable = lendable }) })

  abbrev pub effective_time : ℕ
  effective_time = now_sec host - now_sec host % dist_interval

  abbrev store : RexTables → Distribution → RexTables
  store t (rp, b, change) = record t { rexretpool = some rp; rexretbuckets = b }

  unfoldable pub update_rex_pool : RexTables → Result RexTables
  update_rex_pool t = elim t.rexretpool [
    | none ↦ ok t
    | some rp ↦
        let out = distribute effective_time rp t.rexretbuckets in
        if leb effective_time rp.last_dist_time
        then ok t
        else (if ltb_ℤ (pos 0) out.2 then pay_out out.2 (store t out) else ok (store t out))
  ]

  -- The fee goes into the pending bucket.
  unfoldable pub add_to_rex_return_pool : Asset → RexTables → Result RexTables
  add_to_rex_return_pool fee t = do
    t1 ← update_rex_pool t
    let interval = 12 * seconds_per_hour
    let time = (now_sec host - now_sec host % interval + interval) % 2 ^ 32
    ok (
        if leb_ℤ fee.amount (pos 0) then t1 else (elim t1.rexretpool [
          | none ↦ record t1 {
            rexretpool = some (record {
              last_dist_time = time;
              pending_bucket_time = time;
              oldest_bucket_time = 0;
              pending_bucket_proceeds = fee.amount;
              current_rate_of_increase = pos 0;
              proceeds = fee.amount;
            });
            rexretbuckets = [];
          }
          | some rp ↦ record t1 {
            rexretpool = some (record rp {
              pending_bucket_proceeds = rp.pending_bucket_proceeds +ℤ fee.amount;
              proceeds = rp.proceeds +ℤ fee.amount;
              pending_bucket_time =
                  if rp.pending_bucket_time == end_of_days then time else rp.pending_bucket_time;
            });
          }
        ]))
