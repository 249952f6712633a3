-- ===== src/Analytics/BpsMath/Tests.antt =====
-- Runs of the basis-point functions (piMath.ts) with exact shares, and instances of the theorems.
use nayft_backend.Common.{ℕ, ◌*◌, ◌+◌, ◌/◌, ◌%◌, ◌≤◌, ◌≡◌, ◌≢◌, refl, List, [], ◌∷◌, arith, Paired}
use nayft_backend.Common.Sorting.{sort}
use nayft_backend.Analytics.BpsMath.{
  bps_total, FloatShare, IsAccurate, Bucket, by_name, total, normalize_bps_hamilton,
}
use nayft_backend.Analytics.BpsMath.Hamilton.{normalize_bps_hamilton-total}
use nayft_backend.Analytics.BpsMath.Quota.{IsQuota, count_name, normalize_bps_hamilton-IsQuota}

abbrev exact : FloatShare
exact = record { floored = λ v s. v * bps_total / s; remainder = λ v s. v * bps_total % s }

exact_low : (v s : ℕ) → s ≢ 0 → v * bps_total / s * s ≤ v * bps_total
exact_low v s nz = omega arith

exact_high : (v s : ℕ) → s ≢ 0 → v * bps_total ≤ v * bps_total / s * s + s
exact_high v s nz = omega arith

exact-IsAccurate : IsAccurate exact
exact-IsAccurate = record { floored_low = exact_low; floored_high = exact_high }

abbrev thirds : List Bucket
thirds = (2, 1) ∷ (1, 1) ∷ (3, 1) ∷ []

thirds_run : normalize_bps_hamilton exact thirds ≡ (1, 3333) ∷ (2, 3333) ∷ (3, 3334) ∷ []
unfolding normalize_bps_hamilton
thirds_run = refl

normalize_bps_hamilton-total_example : total (normalize_bps_hamilton exact thirds) ≡ bps_total
normalize_bps_hamilton-total_example =
    normalize_bps_hamilton-total exact exact-IsAccurate thirds (omega arith)

thirds_once : (k : ℕ) → count_name k thirds ≤ 1
thirds_once k = ground arith

normalize_bps_hamilton-IsQuota_example :
    Paired (IsQuota 3) (sort by_name thirds) (normalize_bps_hamilton exact thirds)
normalize_bps_hamilton-IsQuota_example =
    normalize_bps_hamilton-IsQuota exact exact-IsAccurate thirds thirds_once (omega arith)
