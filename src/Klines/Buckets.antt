-- ===== src/Klines/Buckets.antt =====
-- The `bucketMap` of klineDownsampler.ts, a JavaScript Map in insertion order, and the upserts that
-- are made from it.
use nayft_backend.Common.{ℕ, ◌==◌, if◌then◌else◌, List, [], ◌∷◌, ◌++◌, Option, none, some}
use nayft_backend.Klines.Candles.{Candle, align_to_bucket, merge_bucket}

abbrev pub BucketMap : Type 0
BucketMap = List (ℕ × List Candle)

-- `const list = bucketMap.get(bucket) ?? []; list.push(doc); bucketMap.set(bucket, list)`.
unfoldable pub add_to_bucket : ℕ → Candle → BucketMap → BucketMap
add_to_bucket b c [] = (b, c ∷ []) ∷ []
add_to_bucket b c (e ∷ m) =
    let rest = add_to_bucket b c m in if e.0 == b then (e.0, e.1 ++ c ∷ []) ∷ m else e ∷ rest

unfoldable pub fill_buckets : ℕ → BucketMap → List Candle → BucketMap
unfolding add_to_bucket align_to_bucket
fill_buckets interval m [] = m
fill_buckets interval m (d ∷ docs) =
    fill_buckets interval (add_to_bucket (align_to_bucket d.open_time interval) d m) docs

abbrev pub add_op : Option Candle → List Candle → List Candle
add_op none ops = ops
add_op (some c) ops = c ∷ ops

module _ (plus : ℕ → ℕ → ℕ) where
  unfoldable pub bucket_ops : BucketMap → List Candle
  unfolding merge_bucket
  bucket_ops [] = []
  bucket_ops (e ∷ m) = add_op (merge_bucket plus e.0 e.1) (bucket_ops m)

  -- The upserts for a batch of candles.
  unfoldable pub batch_ops : ℕ → List Candle → List Candle
  unfolding fill_buckets bucket_ops
  batch_ops interval docs = bucket_ops (fill_buckets interval [] docs)
