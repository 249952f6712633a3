-- ===== src/Klines/Candles.antt =====
-- The candles of klineDownsampler.ts, and the one candle that a bucket of them is merged into.
-- Times are milliseconds. A price, a volume or a count of trades is a double that is not negative: it
-- stands here as the number that its bits are, which is 0 for 0 and in the same order. The sum of two doubles, `plus`, is a
-- parameter, so that its rounding is not decided here.
use nayft_backend.Common.{
  ℕ, ◌*◌, ◌/◌, max, min, ◌==◌, Bool, if◌then◌else◌, List, [], ◌∷◌, Option, none, some, leb,
}
use nayft_backend.Common.Sorting.{sort}

pub data Interval : Type 0 where
  m1 m5 h1 d1 : Interval

-- MS_1M, MS_5M, MS_1H and MS_1D.
abbrev pub interval_ms : Interval → ℕ
interval_ms m1 = 60 * 1000
interval_ms m5 = 5 * (60 * 1000)
interval_ms h1 = 60 * (60 * 1000)
interval_ms d1 = 24 * (60 * (60 * 1000))

-- Intervals are compared as the strings '1m' to '1d', which name different widths.
abbrev pub interval_eq : Interval → Interval → Bool
interval_eq i j = interval_ms i == interval_ms j

pub record Bar : Type 0 where
  pub opening : ℕ
  pub high : ℕ
  pub low : ℕ
  pub closing : ℕ
  pub volume : ℕ

pub record Candle : Type 0 where
  pub open_time : ℕ
  pub bar : Bar
  pub quote_volume : Option ℕ
  pub trade_count : Option ℕ

-- `Math.floor(ts / intervalMs) * intervalMs`.
unfoldable pub align_to_bucket : ℕ → ℕ → ℕ
align_to_bucket ts interval = ts / interval * interval

abbrev pub volume_of : Candle → ℕ
volume_of c = c.bar.volume

abbrev pub by_open_time : Candle → Candle → Bool
by_open_time a b = leb a.open_time b.open_time

-- `x ?? 0`.
abbrev pub or_zero : Option ℕ → ℕ
or_zero none = 0
or_zero (some n) = n

-- `sum || undefined`.
abbrev pub nonzero : ℕ → Option ℕ
nonzero n = if n == 0 then none else some n

unfoldable pub max_high : ℕ → List Candle → ℕ
max_high acc [] = acc
max_high acc (c ∷ cs) = max_high (max acc c.bar.high) cs

unfoldable pub min_low : ℕ → List Candle → ℕ
min_low acc [] = acc
min_low acc (c ∷ cs) = min_low (min acc c.bar.low) cs

unfoldable pub last_of : Candle → List Candle → Candle
last_of c [] = c
last_of c (d ∷ ds) = last_of d ds

-- `candles.reduce((s, c) => s + f(c), 0)`, from the sum so far.
unfoldable pub reduce_sum : (ℕ → ℕ → ℕ) → (Candle → ℕ) → ℕ → List Candle → ℕ
reduce_sum plus f acc [] = acc
reduce_sum plus f acc (c ∷ cs) = reduce_sum plus f (plus acc (f c)) cs

module _ (plus : ℕ → ℕ → ℕ) where
  -- The `$set` of one bucket's upsert, from its candles in order of time.
  unfoldable pub merge_sorted : ℕ → List Candle → Option Candle
  unfolding max_high min_low last_of reduce_sum
  merge_sorted bucket_ts [] = none
  merge_sorted bucket_ts (first ∷ rest) = some (record {
    open_time = bucket_ts;
    bar = record {
      opening = first.bar.opening;
      high = max_high first.bar.high rest;
      low = min_low first.bar.low rest;
      closing = (last_of first rest).bar.closing;
      volume = reduce_sum plus volume_of 0 (first ∷ rest);
    };
    quote_volume = nonzero (reduce_sum plus (λ c. or_zero c.quote_volume) 0 (first ∷ rest));
    trade_count = nonzero (reduce_sum plus (λ c. or_zero c.trade_count) 0 (first ∷ rest));
  })

  -- A bucket holds at least one candle; `candles[0]` of an empty one would fail.
  unfoldable pub merge_bucket : ℕ → List Candle → Option Candle
  unfolding merge_sorted sort
  merge_bucket bucket_ts candles = merge_sorted bucket_ts (sort by_open_time candles)
