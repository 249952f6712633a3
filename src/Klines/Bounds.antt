-- ===== src/Klines/Bounds.antt =====
-- The prices of a merged candle (klineDownsampler.ts).
use nayft_backend.Common.{ℕ, ◌≤◌, ◌≡◌, List, [], ◌∷◌, ◌++◌, arith, All, max, min}
use nayft_backend.Common.Sorting.{sort, sort-All}
use nayft_backend.Klines.Candles.{
  Bar, Candle, by_open_time, align_to_bucket, max_high, min_low, last_of, merge_sorted,
}
use nayft_backend.Klines.Buckets.{
  BucketMap, add_to_bucket, fill_buckets, add_op, bucket_ops, batch_ops,
}

-- The opening and closing prices lie between the low and the high.
pub record IsBar (b : Bar) : Type 0 where
  pub low_opening : b.low ≤ b.opening
  pub low_closing : b.low ≤ b.closing
  pub opening_high : b.opening ≤ b.high
  pub closing_high : b.closing ≤ b.high

abbrev pub HasBar : Candle → Type 0
HasBar c = IsBar c.bar

max_high-le : (acc : ℕ) (cs : List Candle) → acc ≤ max_high acc cs
unfolding max_high
max_high-le acc [] = omega arith
max_high-le acc (c ∷ cs) = omega (arith, max_high-le (max acc c.bar.high) cs)

min_low-le : (acc : ℕ) (cs : List Candle) → min_low acc cs ≤ acc
unfolding min_low
min_low-le acc [] = omega arith
min_low-le acc (c ∷ cs) = omega (arith, min_low-le (min acc c.bar.low) cs)

last_closing-high :
    (acc : ℕ) (c : Candle) (cs : List Candle)
    → c.bar.closing ≤ acc
    → All HasBar cs
    → (last_of c cs).bar.closing ≤ max_high acc cs
unfolding max_high last_of
last_closing-high acc c [] h bars = h
last_closing-high acc c (d ∷ ds) h bars =
    last_closing-high (max acc d.bar.high) d ds (omega (arith, bars.0)) bars.1

last_closing-low :
    (acc : ℕ) (c : Candle) (cs : List Candle)
    → acc ≤ c.bar.closing
    → All HasBar cs
    → min_low acc cs ≤ (last_of c cs).bar.closing
unfolding min_low last_of
last_closing-low acc c [] h bars = h
last_closing-low acc c (d ∷ ds) h bars =
    last_closing-low (min acc d.bar.low) d ds (omega (arith, bars.0)) bars.1

-- A merged candle starts on a whole multiple of the interval, and its bar is in order.
pub record IsMerged (interval : ℕ) (c : Candle) : Type 0 where
  pub aligned : align_to_bucket c.open_time interval ≡ c.open_time
  pub in_order : IsBar c.bar

module _ (plus : ℕ → ℕ → ℕ) (interval b : ℕ) (aligned : align_to_bucket b interval ≡ b) where
  merge_sorted-IsMerged :
      (cs ops : List Candle)
      → All HasBar cs
      → All (IsMerged interval) ops
      → All (IsMerged interval) (add_op (merge_sorted plus b cs) ops)
  unfolding merge_sorted
  merge_sorted-IsMerged [] ops h g = g
  merge_sorted-IsMerged (c ∷ cs) ops h g = (
    record {
      aligned = aligned;
      in_order = record {
        low_opening = omega (arith, min_low-le c.bar.low cs, h.0);
        low_closing = last_closing-low c.bar.low c cs h.0.low_closing h.1;
        opening_high = omega (arith, max_high-le c.bar.high cs, h.0);
        closing_high = last_closing-high c.bar.high c cs h.0.closing_high h.1;
      };
    },
    g,
  )

abbrev GoodBucket : ℕ → ℕ × List Candle → Type 0
GoodBucket interval e = (align_to_bucket e.0 interval ≡ e.0) × All HasBar e.1

All-snoc : (cs : List Candle) (c : Candle) → All HasBar cs → HasBar c → All HasBar (cs ++ c ∷ [])
All-snoc [] c h g = (g, tt)
All-snoc (d ∷ cs) c h g = (h.0, All-snoc cs c h.1 g)

add_to_bucket-All :
    (interval b : ℕ) (c : Candle) (m : BucketMap)
    → align_to_bucket b interval ≡ b
    → HasBar c
    → All (GoodBucket interval) m
    → All (GoodBucket interval) (add_to_bucket b c m)
unfolding add_to_bucket
add_to_bucket-All interval b c [] a g h = ((a, (g, tt)), tt)
add_to_bucket-All interval b c (e ∷ m) a g h =
    ground (arith, add_to_bucket-All interval b c m a g, All-snoc e.1 c h.0.1 g)

align-align :
    (t interval : ℕ)
    → align_to_bucket (align_to_bucket t interval) interval ≡ align_to_bucket t interval
unfolding align_to_bucket
align-align t interval = grind arith

fill_buckets-All :
    (interval : ℕ) (m : BucketMap) (docs : List Candle)
    → All HasBar docs
    → All (GoodBucket interval) m
    → All (GoodBucket interval) (fill_buckets interval m docs)
unfolding fill_buckets
fill_buckets-All interval m [] h g = g
fill_buckets-All interval m (d ∷ docs) h g =
    let b = align_to_bucket d.open_time interval in
    fill_buckets-All interval (add_to_bucket b d m) docs h.1
      (add_to_bucket-All interval b d m (align-align d.open_time interval) h.0 g)

bucket_ops-All :
    (plus : ℕ → ℕ → ℕ) (interval : ℕ) (m : BucketMap)
    → All (GoodBucket interval) m
    → All (IsMerged interval) (bucket_ops plus m)
unfolding bucket_ops
bucket_ops-All plus interval [] h = tt
bucket_ops-All plus interval (e ∷ m) h =
    merge_sorted-IsMerged plus interval e.0 h.0.0 (sort by_open_time e.1) (bucket_ops plus m)
      (sort-All by_open_time HasBar e.1 h.0.1) (bucket_ops-All plus interval m h.1)

-- From candles whose bars are in order, every merged candle starts on a multiple of the interval
-- and has its bar in order.
pub batch_ops-IsMerged :
    (plus : ℕ → ℕ → ℕ) (interval : ℕ) (docs : List Candle)
    → All HasBar docs
    → All (IsMerged interval) (batch_ops plus interval docs)
unfolding batch_ops
batch_ops-IsMerged plus interval docs h =
    bucket_ops-All plus interval (fill_buckets interval [] docs)
      (fill_buckets-All interval [] docs h tt)
