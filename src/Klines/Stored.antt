-- ===== src/Klines/Stored.antt =====
-- What the collection holds after one downsampling step (klineDownsampler.ts).
use nayft_backend.Common.{
  ℕ, ◌≤◌, ◌≡◌, refl, ◌∙◌, true, false, if◌then◌else◌, List, [], ◌∷◌, map, none, arith, member,
  length,
}
use nayft_backend.Klines.Candles.{Interval, interval_eq, interval_ms, Candle, merge_bucket}
use nayft_backend.Klines.Buckets.{BucketMap, fill_buckets, bucket_ops}
use nayft_backend.Klines.Downsampler.{
  KlineDb, IsKlineDb, KlineConfig, cutoff_of, bulk_write, batch_of, write_batch, aggregate,
}
use nayft_backend.Klines.Lookup.{
  docs_in, lookup_bucket, IsDistinct, lookup_bucket-fill, fill_buckets-IsDistinct, last_bar, bar_or,
  last_bar-bucket_ops, fill_buckets-nil, interval_eq_refl, length-map,
}

module _ {S : Type 0} (db : KlineDb S) (laws : IsKlineDb db) (config : KlineConfig) (now : ℕ)
    (plus : ℕ → ℕ → ℕ) where
  bar-bulk_write :
      (s : S) (i : Interval) (t : ℕ) (ops : List Candle)
      → interval_eq i i ≡ true
      → db.bar (bulk_write db config now plus s i ops) i t ≡ last_bar t ops (db.bar s i t)
  unfolding bulk_write
  bar-bulk_write s i t [] r = refl
  bar-bulk_write s i t (c ∷ cs) r =
      rw (bar-bulk_write (db.upsert s i c) i t cs r, laws.bar-upsert s i i c t, r)

  bar-bulk_write_other :
      (s : S) (i j : Interval) (t : ℕ) (ops : List Candle)
      → interval_eq i j ≡ false
      → db.bar (bulk_write db config now plus s i ops) j t ≡ db.bar s j t
  unfolding bulk_write
  bar-bulk_write_other s i j t [] r = refl
  bar-bulk_write_other s i j t (c ∷ cs) r =
      rw (bar-bulk_write_other (db.upsert s i c) i j t cs r, laws.bar-upsert s i j c t, r)

  write_batch-target :
      (s : S) (source target : Interval) (docs : List Candle) (m : BucketMap) (t : ℕ)
      → interval_eq source target ≡ false
      → IsDistinct m
      → db.bar (write_batch db config now plus s source target docs m).0 target t
        ≡ bar_or (merge_bucket plus t (lookup_bucket t m)) (db.bar s target t)
  unfolding write_batch
  write_batch-target s source target docs [] t ne h = unfold merge_bucket in refl
  write_batch-target s source target docs (e ∷ m) t ne h =
      let ops = bucket_ops plus (e ∷ m) in
      rw
        (
          laws.bar-delete_times (bulk_write db config now plus s target ops) source target
              (map (λ c. c.open_time) docs) t,
          ne,
          bar-bulk_write s target t ops (interval_eq_refl target),
        )
        (last_bar-bucket_ops plus t (e ∷ m) (db.bar s target t) h)

  write_batch-source :
      (s : S) (source target : Interval) (docs : List Candle) (m : BucketMap) (t : ℕ)
      → interval_eq target source ≡ false
      → (m ≡ [] → docs ≡ [])
      → db.bar (write_batch db config now plus s source target docs m).0 source t
        ≡ (if member t (map (λ c. c.open_time) docs) then none else db.bar s source t)
  unfolding write_batch
  write_batch-source s source target docs [] t ne h = rw (h refl)
  write_batch-source s source target docs (e ∷ m) t ne h =
      let ops = bucket_ops plus (e ∷ m) in
      rw (
        laws.bar-delete_times (bulk_write db config now plus s target ops) source source
            (map (λ c. c.open_time) docs) t,
        interval_eq_refl source,
        bar-bulk_write_other s target source t ops ne,
      )

  -- After a step from one interval to another, each time of the target interval holds the merge of
  -- the batch's candles of that bucket, or what it held before if the batch has none there.
  pub aggregate-target :
      (source target : Interval) (s : S) (t : ℕ)
      → interval_eq source target ≡ false
      → db.bar (aggregate db config now plus source target s).0 target t
        ≡ bar_or
            (merge_bucket plus t
              (docs_in (interval_ms target) t (batch_of db config now plus s source)))
            (db.bar s target t)
  unfolding aggregate
  aggregate-target source target s t ne =
      let docs = batch_of db config now plus s source in
      let m = fill_buckets (interval_ms target) [] docs in
      write_batch-target s source target docs m t ne
        (fill_buckets-IsDistinct (interval_ms target) [] docs tt)
      ∙ rw (lookup_bucket-fill (interval_ms target) t [] docs)

  -- After a step from one interval to another, the source interval has lost exactly the candles of
  -- the batch.
  pub aggregate-source :
      (source target : Interval) (s : S) (t : ℕ)
      → interval_eq target source ≡ false
      → db.bar (aggregate db config now plus source target s).0 source t ≡ (
          if member t (map (λ c. c.open_time) (batch_of db config now plus s source))
          then none
          else db.bar s source t)
  unfolding aggregate
  aggregate-source source target s t ne =
      let docs = batch_of db config now plus s source in
      write_batch-source s source target docs (fill_buckets (interval_ms target) [] docs) t ne
        (fill_buckets-nil (interval_ms target) docs)

  write_batch-deleted :
      (s : S) (source target : Interval) (docs : List Candle) (m : BucketMap)
      → (write_batch db config now plus s source target docs m).1.deleted ≤ length docs
  unfolding write_batch
  write_batch-deleted s source target docs [] = omega arith
  write_batch-deleted s source target docs (e ∷ m) = omega (
    arith,
    laws.delete_times_count_le (bulk_write db config now plus s target (bucket_ops plus (e ∷ m)))
        source (map (λ c. c.open_time) docs),
    length-map (λ (c : Candle). c.open_time) docs,
  )

  -- One step deletes at most a batch of candles, however many are past the cutoff.
  pub aggregate-deleted :
      (source target : Interval) (s : S)
      → (aggregate db config now plus source target s).1.deleted ≤ config.batch_size
  unfolding aggregate
  aggregate-deleted source target s =
      let docs = batch_of db config now plus s source in
      omega (
        arith,
        write_batch-deleted s source target docs (fill_buckets (interval_ms target) [] docs),
        laws.find_before_limit s source (cutoff_of db config now plus source) config.batch_size,
      )
