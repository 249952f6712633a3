-- ===== src/Analytics/BpsMath.antt =====
-- src/modules/portfolio-intelligence/engines/math/piMath.ts: integer basis points, 10000 = 100%.
-- A bucket's name is its rank in the `localeCompare` order of the names. The two quotients that the
-- source computes in floating point are the operations of `FloatShare`.
pub mod Hamilton
pub mod Quota
mod Tests
use nayft_backend.Common.{
  ℕ, ◌+◌, ◌*◌, ◌≤◌, ◌≢◌, ◌==◌, Bool, if◌then◌else◌, List, [], ◌∷◌, map, ltb, leb, sum_by,
}
use nayft_backend.Common.Sorting.{sort}

abbrev pub bps_total : ℕ
bps_total = 10000

-- `Math.floor((v / sum) * BPS_TOTAL)`, and `raw - floored` as a count of some fixed fraction.
pub record FloatShare : Type 0 where
  pub floored : ℕ → ℕ → ℕ
  pub remainder : ℕ → ℕ → ℕ

-- What IEEE doubles give at the sizes in use: rounding never passes the next whole number, and a
-- quotient that is whole may fall just below it.
pub record IsAccurate (F : FloatShare) : Type 0 where
  pub floored_low : (v s : ℕ) → s ≢ 0 → F.floored v s * s ≤ v * bps_total
  pub floored_high : (v s : ℕ) → s ≢ 0 → v * bps_total ≤ F.floored v s * s + s

-- An entry of a `Record<string, number>`: the name and its basis points.
abbrev pub Bucket : Type 0
Bucket = ℕ × ℕ

abbrev pub bps_of : Bucket → ℕ
bps_of b = b.1

abbrev pub by_name : Bucket → Bucket → Bool
by_name a b = leb a.0 b.0

pub record Scaled : Type 0 where
  pub k : ℕ
  pub floored : ℕ
  pub remainder : ℕ

-- The larger remainder first; among equal ones the later name first.
abbrev pub by_remainder : Scaled → Scaled → Bool
by_remainder a b = if a.remainder == b.remainder then leb b.k a.k else ltb b.remainder a.remainder

abbrev pub scale : FloatShare → ℕ → Bucket → Scaled
scale F sum b = record { k = b.0; floored = F.floored b.1 sum; remainder = F.remainder b.1 sum }

abbrev pub floored_bucket : Scaled → Bucket
floored_bucket x = (x.k, x.floored)

-- `result[k] += 1`, at a name that the record has.
unfoldable pub bump : ℕ → List Bucket → List Bucket
bump k [] = []
bump k (b ∷ bs) = let rest = bump k bs in if k == b.0 then (b.0, b.1 + 1) ∷ bs else b ∷ rest

-- The `while` loop: one basis point for each entry in turn, until all are handed out.
unfoldable pub distribute : ℕ → List Bucket → List Scaled → List Bucket
unfolding bump
distribute allocated result [] = result
distribute allocated result (x ∷ xs) =
    let rest = distribute (allocated + 1) (bump x.k result) xs in
    if ltb allocated bps_total then rest else result

abbrev pub total : List Bucket → ℕ
total = sum_by bps_of

unfoldable pub normalize_bps_hamilton : FloatShare → List Bucket → List Bucket
unfolding distribute sort
normalize_bps_hamilton F bucket_bps =
    let entries = sort by_name bucket_bps in
    let sum : ℕ = total entries in
    let scaled = map (scale F sum) entries in
    if sum == 0
    then []
    else if sum == bps_total
    then entries
    else distribute (sum_by (λ x. x.floored) scaled) (map floored_bucket scaled)
        (sort by_remainder scaled)
