-- ===== src/Klines/Tests.antt =====
-- A collection of candles on a grid of times, runs of klineDownsampler.ts on it, and instances of the
-- theorems.
use nayft_backend.Common.{
  ◌+◌, ℕ, ◌+◌, ◌≤◌, ◌≡◌, ◌≢◌, refl, Bool, true, false, ◌&&◌, ◌==◌, if◌then◌else◌, List, [], ◌∷◌,
  map, Option, none, some, arith, All, ltb, take, zero, suc, length, filter_by, member,
}
use nayft_backend.Klines.Candles.{
  Interval, m1, m5, interval_eq, Bar, Candle, align_to_bucket, merge_bucket,
}
use nayft_backend.Klines.Buckets.{add_op, batch_ops}
use nayft_backend.Klines.Downsampler.{KlineDb, IsKlineDb, KlineConfig, batch_of, aggregate}
use nayft_backend.Klines.Bounds.{HasBar, IsMerged, batch_ops-IsMerged}
use nayft_backend.Klines.Lookup.{docs_in, bar_or}
use nayft_backend.Klines.Stored.{aggregate-target, aggregate-source}

-- Sums that are not rounded.
abbrev exact : ℕ → ℕ → ℕ
exact a b = a + b

-- The candles by interval and time, and the times of the grid in order.
record Rows : Type 0 where
  held : Interval → ℕ → Option Candle
  times : List ℕ

abbrev bar_of : Option Candle → Option Bar
bar_of none = none
bar_of (some c) = some c.bar

abbrev bar_at : Rows → Interval → ℕ → Option Bar
bar_at s i t = bar_of (s.held i t)

abbrev candles_at : List ℕ → (ℕ → Option Candle) → List Candle
candles_at [] h = []
candles_at (t ∷ ts) h = add_op (h t) (candles_at ts h)

abbrev count_at : List ℕ → (ℕ → Option Candle) → ℕ
count_at ts h = length (candles_at ts h)

abbrev rows : KlineDb Rows
rows = record {
  bar = bar_at;
  find_before = λ s i cutoff limit.
      take limit (candles_at (filter_by (λ t. ltb t cutoff) s.times) (s.held i));
  upsert = λ s i c. record s {
    held = λ j t. if interval_eq i j && c.open_time == t then some c else s.held j t;
  };
  delete_times = λ s i ts. record s {
    held = λ j t. if interval_eq i j && member t ts then none else s.held j t;
  };
  delete_times_count = λ s i ts. count_at ts (s.held i);
  delete_before = λ s i cutoff. record s {
    held = λ j t. if interval_eq i j && ltb t cutoff then none else s.held j t;
  };
  delete_before_count = λ s i cutoff. count_at (filter_by (λ t. ltb t cutoff) s.times) (s.held i);
}

bar_of-if :
    (b : Bool) (x y : Option Candle)
    → bar_of (if b then x else y) ≡ (if b then bar_of x else bar_of y)
bar_of-if true x y = refl
bar_of-if false x y = refl

length-candles_at : (ts : List ℕ) (h : ℕ → Option Candle) → length (candles_at ts h) ≤ length ts
length-candles_at [] h = omega arith
length-candles_at (t ∷ ts) h = ground (arith, length-candles_at ts h)

length-take {ℓ} : {A : Type ℓ} (n : ℕ) (xs : List A) → length (take n xs) ≤ n
length-take zero xs = omega arith
length-take (suc n) [] = omega arith
length-take (suc n) (x ∷ xs) = omega (arith, length-take n xs)

rows-IsKlineDb : IsKlineDb rows
rows-IsKlineDb = record {
  bar-upsert = λ s i j c t. bar_of-if (interval_eq i j && c.open_time == t) (some c) (s.held j t);
  bar-delete_times = λ s i j ts t. bar_of-if (interval_eq i j && member t ts) none (s.held j t);
  delete_times_count_le = λ s i ts. length-candles_at ts (s.held i);
  find_before_limit = λ s i cutoff limit.
      length-take limit (candles_at (filter_by (λ t. ltb t cutoff) s.times) (s.held i));
}

abbrev candle_at : ℕ → ℕ → Candle
candle_at t v = record {
  open_time = t;
  bar = record { opening = 10; high = 12; low = 9; closing = 11; volume = v };
  quote_volume = none;
  trade_count = some 2;
}

abbrev stored : Rows
stored = record {
  held = λ i t.
      if interval_eq i m1 && t == 300000
      then some (candle_at 300000 7)
      else if interval_eq i m1 && t == 360000
      then some (candle_at 360000 5)
      else if interval_eq i m1 && t == 660000
      then some (candle_at 660000 1)
      else if interval_eq i m5 && t == 300000
      then some (candle_at 300000 40)
      else none;
  times = 300000 ∷ 360000 ∷ 660000 ∷ [];
}

abbrev config : KlineConfig
config = record { retention_days = λ i. 0; batch_size = 2 }

-- The third candle does not fit the batch; the 5m candle of volume 40 is replaced by one of 12.
stored_run :
    let s = (aggregate rows config 1000000 exact m1 m5 stored).0 in
    (bar_at s m5 300000
      ≡ some (record { opening = 10; high = 12; low = 9; closing = 11; volume = 12 }))
    × (bar_at s m1 300000 ≡ none)
    × (bar_at s m1 660000
        ≡ some (record { opening = 10; high = 12; low = 9; closing = 11; volume = 1 }))
unfolding aggregate
stored_run = (refl, refl, refl)

aggregate-target_example :
    bar_at (aggregate rows config 1000000 exact m1 m5 stored).0 m5 300000
    ≡ bar_or
        (merge_bucket exact 300000
          (docs_in 300000 300000 (batch_of rows config 1000000 exact stored m1)))
        (bar_at stored m5 300000)
aggregate-target_example =
    aggregate-target rows rows-IsKlineDb config 1000000 exact m1 m5 stored 300000 refl

aggregate-source_example : bar_at (aggregate rows config 1000000 exact m1 m5 stored).0 m1 660000 ≡ (
    if member 660000 (map (λ c. c.open_time) (batch_of rows config 1000000 exact stored m1))
    then none
    else bar_at stored m1 660000)
aggregate-source_example =
    aggregate-source rows rows-IsKlineDb config 1000000 exact m1 m5 stored 660000 refl

batch_docs :
    docs_in 300000 300000 (batch_of rows config 1000000 exact stored m1)
    ≡ candle_at 300000 7 ∷ candle_at 360000 5 ∷ []
unfolding align_to_bucket
batch_docs = refl

batch_nonempty : docs_in 300000 300000 (batch_of rows config 1000000 exact stored m1) ≢ []
batch_nonempty e = cc batch_docs

abbrev two : List Candle
two = candle_at 360000 5 ∷ candle_at 660000 7 ∷ []

two-HasBar : All HasBar two
two-HasBar = omega arith

batch_ops-IsMerged_example : All (IsMerged 300000) (batch_ops exact 300000 two)
batch_ops-IsMerged_example = batch_ops-IsMerged exact 300000 two two-HasBar
