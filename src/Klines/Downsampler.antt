-- ===== src/Klines/Downsampler.antt =====
-- The downsampling steps of klineDownsampler.ts for one exchange and symbol, over a collection of
-- candles that the database keeps.
use nayft_backend.Common.{
  ℕ, ◌*◌, ◌-◌, ◌≤◌, ◌≡◌, Bool, ◌&&◌, ◌||◌, ◌==◌, if◌then◌else◌, List, [], ◌∷◌, map, Option, some,
  ltb, length, member,
}
use nayft_backend.Klines.Candles.{Interval, m1, m5, h1, d1, interval_eq, interval_ms, Bar, Candle}
use nayft_backend.Klines.Buckets.{BucketMap, fill_buckets, bucket_ops}

-- The calls of the `OhlcvKline` model, restricted to one exchange and symbol; `bar` is what the
-- collection holds at an interval and a time.
pub record KlineDb (S : Type 0) : Type 0 where
  pub bar : S → Interval → ℕ → Option Bar
  pub find_before : S → Interval → ℕ → ℕ → List Candle
  pub upsert : S → Interval → Candle → S
  pub delete_times : S → Interval → List ℕ → S
  pub delete_times_count : S → Interval → List ℕ → ℕ
  pub delete_before : S → Interval → ℕ → S
  pub delete_before_count : S → Interval → ℕ → ℕ

-- What MongoDB documents of these calls: an upsert sets the one document that its filter names, a
-- `deleteMany` removes those that its filter names, and a `find` with a limit returns at most so
-- many documents.
pub record IsKlineDb {S : Type 0} (db : KlineDb S) : Type 0 where
  pub bar-upsert :
      (s : S) (i j : Interval) (c : Candle) (t : ℕ)
      → db.bar (db.upsert s i c) j t
        ≡ (if interval_eq i j && c.open_time == t then some c.bar else db.bar s j t)
  pub bar-delete_times :
      (s : S) (i j : Interval) (ts : List ℕ) (t : ℕ)
      → db.bar (db.delete_times s i ts) j t
        ≡ (if interval_eq i j && member t ts then Option.none else db.bar s j t)
  pub delete_times_count_le :
      (s : S) (i : Interval) (ts : List ℕ) → db.delete_times_count s i ts ≤ length ts
  pub find_before_limit :
      (s : S) (i : Interval) (cutoff limit : ℕ) → length (db.find_before s i cutoff limit) ≤ limit

-- `streamConfig.kline`: the days that each interval is kept, and the size of a batch.
pub record KlineConfig : Type 0 where
  pub retention_days : Interval → ℕ
  pub batch_size : ℕ

pub record Outcome : Type 0 where
  pub upserted : ℕ
  pub deleted : ℕ

module _ {S : Type 0} (db : KlineDb S) (config : KlineConfig) (now : ℕ) (plus : ℕ → ℕ → ℕ) where
  -- `new Date(Date.now() - retention * MS_1D)`; the clock is far past any retention.
  abbrev pub cutoff_of : Interval → ℕ
  cutoff_of i = now - config.retention_days i * interval_ms d1

  -- The `bulkWrite` of the upserts, in order.
  unfoldable pub bulk_write : S → Interval → List Candle → S
  bulk_write s i [] = s
  bulk_write s i (c ∷ cs) = bulk_write (db.upsert s i c) i cs

  abbrev pub batch_of : S → Interval → List Candle
  batch_of s source = db.find_before s source (cutoff_of source) config.batch_size

  unfoldable pub write_batch : S → Interval → Interval → List Candle → BucketMap → S × Outcome
  unfolding bulk_write bucket_ops
  write_batch s source target docs [] = (s, record { upserted = 0; deleted = 0 })
  write_batch s source target docs (e ∷ m) =
      let ops = bucket_ops plus (e ∷ m) in
      let written = bulk_write s target ops in
      let times = map (λ c. c.open_time) docs in
      (
        db.delete_times written source times,
        record { upserted = length ops; deleted = db.delete_times_count written source times },
      )

  -- The body that the three functions share.
  unfoldable pub aggregate : Interval → Interval → S → S × Outcome
  unfolding write_batch fill_buckets
  aggregate source target s =
      let docs = batch_of s source in
      write_batch s source target docs (fill_buckets (interval_ms target) [] docs)

  unfoldable pub aggregate_1m_to_5m : S → S × Outcome
  unfolding aggregate
  aggregate_1m_to_5m = aggregate m1 m5

  unfoldable pub aggregate_5m_to_1h : S → S × Outcome
  unfolding aggregate
  aggregate_5m_to_1h = aggregate m5 h1

  unfoldable pub aggregate_1h_to_1d : S → S × Outcome
  unfolding aggregate
  aggregate_1h_to_1d = aggregate h1 d1

  unfoldable pub delete_old_1d : S → S × ℕ
  delete_old_1d s =
      (db.delete_before s d1 (cutoff_of d1), db.delete_before_count s d1 (cutoff_of d1))

  -- One turn of the loop of `runKlineDownsampler`: nothing is touched unless the pair was archived.
  unfoldable pub downsample_pair : Bool → S → S
  unfolding aggregate_1m_to_5m aggregate_5m_to_1h aggregate_1h_to_1d delete_old_1d
  downsample_pair archival_ok s =
      let r1 = aggregate_1m_to_5m s in
      let r2 = aggregate_5m_to_1h r1.0 in
      let r3 = aggregate_1h_to_1d r2.0 in
      let later = delete_old_1d r3.0 in
      if archival_ok
      then (if ltb 0 r1.1.upserted || ltb 0 r1.1.deleted then later.0 else r1.0)
      else s
