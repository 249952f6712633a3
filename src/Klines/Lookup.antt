-- ===== src/Klines/Lookup.antt =====
-- Which candles of a batch a bucket of klineDownsampler.ts holds, and the bar its upsert leaves.
use nayft_backend.Common.{
  ℕ, ◌≡◌, ◌≢◌, refl, sym, ◌∙◌, ap, true, false, ◌==◌, if◌then◌else◌, List, [], ◌∷◌, ◌++◌, map,
  Option, none, some, arith, All, filter_by, length, inl, inr, Bool-cases, ==_iff,
}
use mathlib.Core.Path.{subst}
use mathlib.Core.List.{append-nil, append_assoc}
use nayft_backend.Common.Sorting.{sort}
use nayft_backend.Klines.Candles.{
  Interval, interval_eq, Bar, Candle, by_open_time, align_to_bucket, merge_sorted, merge_bucket,
}
use nayft_backend.Klines.Buckets.{BucketMap, add_to_bucket, fill_buckets, add_op, bucket_ops}

-- The candles of a batch that fall into the bucket starting at `b`.
abbrev pub docs_in : ℕ → ℕ → List Candle → List Candle
docs_in interval b = filter_by (λ c. align_to_bucket c.open_time interval == b)

abbrev pub lookup_bucket : ℕ → BucketMap → List Candle
lookup_bucket b [] = []
lookup_bucket b (e ∷ m) = if e.0 == b then e.1 else lookup_bucket b m

abbrev pub NoBucket : ℕ → BucketMap → Type 0
NoBucket b = All (λ e. (e.0 == b) ≡ false)

abbrev pub IsDistinct : BucketMap → Type 0
IsDistinct [] = Unit
IsDistinct (e ∷ m) = NoBucket e.0 m × IsDistinct m

pub lookup_bucket-add :
    (b k : ℕ) (c : Candle) (m : BucketMap)
    → lookup_bucket b (add_to_bucket k c m)
      ≡ (if k == b then lookup_bucket b m ++ c ∷ [] else lookup_bucket b m)
unfolding add_to_bucket
lookup_bucket-add b k c [] = ground arith
lookup_bucket-add b k c (e ∷ m) = ground (arith, lookup_bucket-add b k c m)

pub lookup_bucket-fill :
    (interval b : ℕ) (m : BucketMap) (docs : List Candle)
    → lookup_bucket b (fill_buckets interval m docs) ≡ lookup_bucket b m ++ docs_in interval b docs
unfolding fill_buckets
lookup_bucket-fill interval b m [] = sym (append-nil (lookup_bucket b m))
lookup_bucket-fill interval b m (d ∷ docs) =
    let k = align_to_bucket d.open_time interval in
    rw (lookup_bucket-fill interval b (add_to_bucket k d m) docs, lookup_bucket-add b k d m)
      (elim (Bool-cases (k == b)) [
        | inl e ↦ rw e (append_assoc (lookup_bucket b m) (d ∷ []) (docs_in interval b docs))
        | inr e ↦ rw e
      ])

pub NoBucket-add :
    (b k : ℕ) (c : Candle) (m : BucketMap)
    → (k == b) ≡ false
    → NoBucket b m
    → NoBucket b (add_to_bucket k c m)
unfolding add_to_bucket
NoBucket-add b k c [] n h = (n, tt)
NoBucket-add b k c (e ∷ m) n h = ground (arith, NoBucket-add b k c m n)

pub IsDistinct-add :
    (k : ℕ) (c : Candle) (m : BucketMap) → IsDistinct m → IsDistinct (add_to_bucket k c m)
unfolding add_to_bucket
IsDistinct-add k c [] h = (tt, tt)
IsDistinct-add k c (e ∷ m) h = ground (arith, IsDistinct-add k c m, NoBucket-add e.0 k c m)

pub fill_buckets-IsDistinct :
    (interval : ℕ) (m : BucketMap) (docs : List Candle)
    → IsDistinct m
    → IsDistinct (fill_buckets interval m docs)
unfolding fill_buckets
fill_buckets-IsDistinct interval m [] h = h
fill_buckets-IsDistinct interval m (d ∷ docs) h =
    let k = align_to_bucket d.open_time interval in
    fill_buckets-IsDistinct interval (add_to_bucket k d m) docs (IsDistinct-add k d m h)

-- The bar that a sequence of upserts leaves at a time.
abbrev pub last_bar : ℕ → List Candle → Option Bar → Option Bar
last_bar t [] d = d
last_bar t (c ∷ cs) d = last_bar t cs (if c.open_time == t then some c.bar else d)

-- The bar of a merged candle, or else what was there.
abbrev pub bar_or : Option Candle → Option Bar → Option Bar
bar_or none d = d
bar_or (some c) d = some c.bar

module _ (plus : ℕ → ℕ → ℕ) where
  pub last_bar-add_op :
      (t b : ℕ) (cs ops : List Candle) (d : Option Bar)
      → last_bar t (add_op (merge_sorted plus b cs) ops) d
        ≡ last_bar t ops (if b == t then bar_or (merge_sorted plus b cs) d else d)
  unfolding merge_sorted
  last_bar-add_op t b [] ops d = elim (Bool-cases (b == t)) [ inl e ↦ rw e | inr e ↦ rw e ]
  last_bar-add_op t b (c ∷ cs) ops d = refl

  pub last_bar-NoBucket :
      (t : ℕ) (m : BucketMap) (d : Option Bar) → NoBucket t m → last_bar t (bucket_ops plus m) d ≡ d
  unfolding bucket_ops
  last_bar-NoBucket t [] d h = refl
  last_bar-NoBucket t (e ∷ m) d h =
      last_bar-add_op t e.0 (sort by_open_time e.1) (bucket_ops plus m) d
      ∙ rw h.0 (last_bar-NoBucket t m d h.1)

  pub last_bar-bucket_ops :
      (t : ℕ) (m : BucketMap) (d : Option Bar)
      → IsDistinct m
      → last_bar t (bucket_ops plus m) d ≡ bar_or (merge_bucket plus t (lookup_bucket t m)) d
  unfolding bucket_ops
  last_bar-bucket_ops t [] d h = refl
  last_bar-bucket_ops t (e ∷ m) d h = elim (Bool-cases (e.0 == t)) [
    | inl q ↦ rw q (
        last_bar-add_op t e.0 (sort by_open_time e.1) (bucket_ops plus m) d
        ∙ rw q (
            last_bar-NoBucket t m (bar_or (merge_bucket plus e.0 e.1) d)
              (subst (λ n. NoBucket n m) ((==_iff e.0 t).0 q) h.0))
        ∙ ap (λ (n : ℕ). bar_or (merge_bucket plus n e.1) d) ((==_iff e.0 t).0 q))
    | inr q ↦ rw q (
        last_bar-add_op t e.0 (sort by_open_time e.1) (bucket_ops plus m) d
        ∙ rw q (last_bar-bucket_ops t m d h.1))
  ]

pub fill_buckets-ne-nil :
    (interval : ℕ) (e : ℕ × List Candle) (m : BucketMap) (docs : List Candle)
    → fill_buckets interval (e ∷ m) docs ≢ []
unfolding fill_buckets add_to_bucket
fill_buckets-ne-nil interval e m [] h = cc
fill_buckets-ne-nil interval e m (d ∷ docs) h =
    elim (Bool-cases (e.0 == align_to_bucket d.open_time interval)) [
      | inl q ↦ fill_buckets-ne-nil interval (e.0, e.1 ++ d ∷ []) m docs (rw q at h)
      | inr q ↦
          fill_buckets-ne-nil interval e (add_to_bucket (align_to_bucket d.open_time interval) d m)
            docs (rw q at h)
    ]

pub fill_buckets-nil :
    (interval : ℕ) (docs : List Candle) → fill_buckets interval [] docs ≡ [] → docs ≡ []
unfolding fill_buckets add_to_bucket
fill_buckets-nil interval [] h = refl
fill_buckets-nil interval (d ∷ docs) h =
    absurd (fill_buckets-ne-nil interval (align_to_bucket d.open_time interval, d ∷ []) [] docs h)

pub interval_eq_refl : (i : Interval) → interval_eq i i ≡ true
interval_eq_refl i = ground arith

pub length-map {ℓ κ} :
    {A : Type ℓ} {B : Type κ} (f : A → B) (xs : List A) → length (map f xs) ≡ length xs
length-map f [] = refl
length-map f (x ∷ xs) = omega (arith, length-map f xs)
