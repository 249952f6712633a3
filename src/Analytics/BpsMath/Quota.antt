-- ===== src/Analytics/BpsMath/Quota.antt =====
-- The buckets that `normalizeBpsHamilton` (piMath.ts) returns beside their shares.
use nayft_backend.Common.{
  ℕ, ◌+◌, ◌*◌, ◌≤◌, ◌≡◌, ◌≢◌, refl, sym, ◌∙◌, ◌==◌, if◌then◌else◌, List, [], ◌∷◌, map, arith,
  sum_by, inl, inr, Bool-cases, sum_by-map, Paired, ==_iff, false,
}
use mathlib.Core.Path.{subst}
use nayft_backend.Common.Sorting.{sort, sum_by-sort}
use nayft_backend.Analytics.BpsMath.{
  bps_total, FloatShare, IsAccurate, Bucket, bps_of, by_name, Scaled, by_remainder, scale,
  floored_bucket, bump, distribute, total, normalize_bps_hamilton,
}

abbrev is_named : ℕ → ℕ → ℕ
is_named k j = if k == j then 1 else 0

abbrev turns : ℕ → List Scaled → ℕ
turns k = sum_by (λ x. is_named k x.k)

-- How often a name stands in a record of buckets.
abbrev pub count_name : ℕ → List Bucket → ℕ
count_name k = sum_by (λ b. is_named k b.0)

abbrev RaisedEntry : List Scaled → Bucket → Bucket → Type 0
RaisedEntry xs a b = (a.0 ≡ b.0) × (a.1 ≤ b.1) × (b.1 ≤ a.1 + turns a.0 xs)

abbrev Raised : List Scaled → List Bucket → List Bucket → Type 0
Raised xs = Paired (RaisedEntry xs)

Raised-refl : (xs : List Scaled) (bs : List Bucket) → Raised xs bs bs
Raised-refl xs [] = tt
Raised-refl xs (b ∷ bs) = ((refl, omega arith, omega arith), Raised-refl xs bs)

Raised-weaken :
    (x : Scaled) (xs : List Scaled) (bs cs : List Bucket) → Raised xs bs cs → Raised (x ∷ xs) bs cs
Raised-weaken x xs [] [] h = tt
Raised-weaken x xs [] (c ∷ cs) h = elim h [ ]
Raised-weaken x xs (b ∷ bs) [] h = elim h [ ]
Raised-weaken x xs (b ∷ bs) (c ∷ cs) h =
    ((h.0.0, h.0.1, omega (arith, h.0.2)), Raised-weaken x xs bs cs h.1)

Raised-bump :
    (x : Scaled) (xs : List Scaled) (bs cs : List Bucket)
    → Raised xs (bump x.k bs) cs
    → Raised (x ∷ xs) bs cs
unfolding bump
Raised-bump x xs [] [] h = tt
Raised-bump x xs [] (c ∷ cs) h = elim h [ ]
Raised-bump x xs (b ∷ bs) [] h = ground arith
Raised-bump x xs (b ∷ bs) (c ∷ cs) h =
    ground (arith, Raised-bump x xs bs cs, Raised-weaken x xs bs cs)

distribute-Raised :
    (a : ℕ) (bs : List Bucket) (xs : List Scaled) → Raised xs bs (distribute a bs xs)
unfolding distribute
distribute-Raised a bs [] = Raised-refl [] bs
distribute-Raised a bs (x ∷ xs) = ground (
  arith,
  Raised-refl (x ∷ xs) bs,
  Raised-bump x xs bs (distribute (a + 1) (bump x.k bs) xs)
      (distribute-Raised (a + 1) (bump x.k bs) xs),
)

-- The entry keeps its name and is within one basis point of its exact share of `s`.
abbrev pub IsQuota : ℕ → Bucket → Bucket → Type 0
IsQuota s a b = (a.0 ≡ b.0) × (b.1 * s ≤ a.1 * bps_total + s) × (a.1 * bps_total ≤ b.1 * s + s)

mul_le : (a b s : ℕ) → a ≤ b → a * s ≤ b * s
mul_le a b s h = grind arith

IsQuota-exact : (es : List Bucket) → Paired (IsQuota bps_total) es es
IsQuota-exact [] = tt
IsQuota-exact (e ∷ es) = ((refl, omega arith, omega arith), IsQuota-exact es)

module _ (F : FloatShare) (acc : IsAccurate F) (s : ℕ) (nz : s ≢ 0) (xs : List Scaled) where
  Raised-IsQuota :
      (es cs : List Bucket)
      → ((k : ℕ) → turns k xs ≤ 1)
      → Raised xs (map floored_bucket (map (scale F s) es)) cs
      → Paired (IsQuota s) es cs
  Raised-IsQuota [] [] once h = tt
  Raised-IsQuota [] (c ∷ cs) once h = elim h [ ]
  Raised-IsQuota (e ∷ es) [] once h = elim h [ ]
  Raised-IsQuota (e ∷ es) (c ∷ cs) once h =
      let f : ℕ = F.floored e.1 s in
      let up : c.1 ≤ f + 1 = omega (arith, h.0.2, once e.0) in
      (
        (
          h.0.0,
          omega (arith, acc.floored_low e.1 s nz, mul_le c.1 (f + 1) s up),
          omega (arith, acc.floored_high e.1 s nz, mul_le f c.1 s h.0.1),
        ),
        Raised-IsQuota es cs once h.1,
      )

turns-sorted :
    (F : FloatShare) (s k : ℕ) (es : List Bucket)
    → turns k (sort by_remainder (map (scale F s) es)) ≡ count_name k es
turns-sorted F s k es =
    sum_by-sort by_remainder (λ (x : Scaled). is_named k x.k) (map (scale F s) es)
    ∙ sum_by-map (λ (x : Scaled). is_named k x.k) (scale F s) es

-- For float shares that are accurate and buckets with distinct names that are not all 0, the result
-- has the buckets in the order of their names, each within one basis point of its exact share.
pub normalize_bps_hamilton-IsQuota :
    (F : FloatShare)
    → IsAccurate F
    → (bucket_bps : List Bucket) → ((k : ℕ) → count_name k bucket_bps ≤ 1)
    → total bucket_bps ≢ 0
    → Paired
        (IsQuota (total bucket_bps))
        (sort by_name bucket_bps)
        (normalize_bps_hamilton F bucket_bps)
unfolding normalize_bps_hamilton
normalize_bps_hamilton-IsQuota F acc bucket_bps once h =
    let es = sort by_name bucket_bps in
    let s : ℕ = total es in
    let kept : s ≡ total bucket_bps = sum_by-sort by_name bps_of bucket_bps in
    let xs = sort by_remainder (map (scale F s) es) in
    let turns_once : (k : ℕ) → turns k xs ≤ 1 = λ k. omega (
      arith,
      turns-sorted F s k es,
      sum_by-sort by_name (λ (b : Bucket). is_named k b.0) bucket_bps,
      once k,
    ) in
    let nz : (s == 0) ≡ false = ground (arith, kept) in
    rw (← kept) (elim (Bool-cases (s == bps_total)) [
      | inl whole ↦
          rw (nz, whole)
            (subst (λ n. Paired (IsQuota n) es es) (sym ((==_iff s bps_total).0 whole))
              (IsQuota-exact es))
      | inr scaled ↦
          rw (nz, scaled)
            (Raised-IsQuota F acc s (λ z. h (sym kept ∙ z)) xs es _ turns_once
              (distribute-Raised (sum_by (λ (x : Scaled). x.floored) (map (scale F s) es))
                (map floored_bucket (map (scale F s) es)) xs))
    ])
