-- ===== src/Analytics/BpsMath/Hamilton.antt =====
-- The sum of the basis points that `normalizeBpsHamilton` (piMath.ts) hands out.
use nayft_backend.Common.{
  ℕ, ◌+◌, ◌*◌, ◌≤◌, ◌≡◌, ◌≢◌, refl, sym, ◌∙◌, Bool, true, ◌==◌, List, [], ◌∷◌, map, arith, sum_by,
  All, any, length, inl, inr, Bool-cases, sum_by-map,
}
use nayft_backend.Common.Sorting.{sort, sum_by-sort, length-sort, sort-All}
use nayft_backend.Analytics.BpsMath.{
  bps_total, FloatShare, IsAccurate, Bucket, bps_of, by_name, Scaled, by_remainder, scale,
  floored_bucket, bump, distribute, total, normalize_bps_hamilton,
}

abbrev pub has_name : ℕ → List Bucket → Bool
has_name k = any (λ b. k == b.0)

total-bump : (k : ℕ) (bs : List Bucket) → has_name k bs ≡ true → total (bump k bs) ≡ total bs + 1
unfolding bump
total-bump k [] h = ground arith
total-bump k (b ∷ bs) h = ground (arith, total-bump k bs)

has_name-bump : (j k : ℕ) (bs : List Bucket) → has_name j (bump k bs) ≡ has_name j bs
unfolding bump
has_name-bump j k [] = refl
has_name-bump j k (b ∷ bs) = ground (arith, has_name-bump j k bs)

abbrev Named : List Bucket → Scaled → Type 0
Named bs x = has_name x.k bs ≡ true

Named-bump :
    (k : ℕ) (bs : List Bucket) (xs : List Scaled) → All (Named bs) xs → All (Named (bump k bs)) xs
Named-bump k bs [] h = tt
Named-bump k bs (x ∷ xs) h = (rw (has_name-bump x.k k bs) h.0, Named-bump k bs xs h.1)

total-distribute :
    (a : ℕ) (bs : List Bucket) (xs : List Scaled)
    → All (Named bs) xs
    → total bs ≡ a
    → a ≤ bps_total
    → bps_total ≤ a + length xs
    → total (distribute a bs xs) ≡ bps_total
unfolding distribute
total-distribute a bs [] h e low high = omega arith
total-distribute a bs (x ∷ xs) h e low high = ground (
  arith,
  total-bump x.k bs h.0,
  total-distribute (a + 1) (bump x.k bs) xs (Named-bump x.k bs xs h.1),
)

-- A scaled entry's name is among the names of the floored entries.
scaled-Named :
    (ys : List Scaled) (bs : List Bucket)
    → ((k : ℕ) → has_name k (map floored_bucket ys) ≡ true → has_name k bs ≡ true)
    → All (Named bs) ys
scaled-Named [] bs sub = tt
scaled-Named (y ∷ ys) bs sub =
    (sub y.k (ground arith), scaled-Named ys bs (λ k h. sub k (ground arith)))

module _ (F : FloatShare) (acc : IsAccurate F) (s : ℕ) (nz : s ≢ 0) where
  floored_sum_low : (es : List Bucket) → sum_by (λ e. F.floored e.1 s) es * s ≤ total es * bps_total
  floored_sum_low [] = omega arith
  floored_sum_low (e ∷ es) = omega (arith, acc.floored_low e.1 s nz, floored_sum_low es)

  floored_sum_high :
      (es : List Bucket) → total es * bps_total ≤ (sum_by (λ e. F.floored e.1 s) es + length es) * s
  floored_sum_high [] = omega arith
  floored_sum_high (e ∷ es) = omega (arith, acc.floored_high e.1 s nz, floored_sum_high es)

le_of_mul_le : (a b s : ℕ) → s ≢ 0 → a * s ≤ b * s → a ≤ b
le_of_mul_le a b s h p = grind arith

length-map {ℓ κ} :
    {A : Type ℓ} {B : Type κ} (f : A → B) (xs : List A) → length (map f xs) ≡ length xs
length-map f [] = refl
length-map f (x ∷ xs) = omega (arith, length-map f xs)

module _ (F : FloatShare) (acc : IsAccurate F) (es : List Bucket) (s : ℕ) (nz : s ≢ 0)
    (e : total es ≡ s) where
  scaled_entries : List Scaled
  scaled_entries = map (scale F s) es

  shares : ℕ
  shares = sum_by (λ x. x.floored) scaled_entries

  shares_lem : shares ≡ sum_by (λ e. F.floored e.1 s) es
  unfolding shares scaled_entries
  shares_lem = sum_by-map (λ (x : Scaled). x.floored) (scale F s) es

  length_sorted : length (sort by_remainder scaled_entries) ≡ length es
  unfolding scaled_entries
  length_sorted = rw (length-sort by_remainder scaled_entries) (length-map (scale F s) es)

  shares_low : shares * s ≤ bps_total * s
  shares_low = rw shares_lem (omega (arith, floored_sum_low F acc s nz es, e))

  shares_high : bps_total * s ≤ (shares + length (sort by_remainder scaled_entries)) * s
  shares_high = rw (shares_lem, length_sorted) (omega (arith, floored_sum_high F acc s nz es, e))

  total-distribute-shares :
      total
        (distribute shares (map floored_bucket scaled_entries) (sort by_remainder scaled_entries))
      ≡ bps_total
  total-distribute-shares =
      total-distribute shares (map floored_bucket scaled_entries) (sort by_remainder scaled_entries)
        (sort-All by_remainder (Named (map floored_bucket scaled_entries)) scaled_entries
          (scaled-Named scaled_entries (map floored_bucket scaled_entries) (λ k m. m)))
        (unfold shares in sum_by-map bps_of floored_bucket scaled_entries)
        (le_of_mul_le shares bps_total s nz shares_low)
        (le_of_mul_le bps_total (shares + length (sort by_remainder scaled_entries)) s nz
          shares_high)

-- For float shares that are accurate, unless all buckets are 0 the normalised basis points add up
-- to exactly 10000, whatever they were.
pub normalize_bps_hamilton-total :
    (F : FloatShare)
    → IsAccurate F
    → (bucket_bps : List Bucket) → total bucket_bps ≢ 0
    → total (normalize_bps_hamilton F bucket_bps) ≡ bps_total
unfolding normalize_bps_hamilton scaled_entries shares
normalize_bps_hamilton-total F acc bucket_bps h =
    let es = sort by_name bucket_bps in
    let s : ℕ = total es in
    let kept : s ≡ total bucket_bps = sum_by-sort by_name bps_of bucket_bps in
    let nonzero : s ≢ 0 = λ z. h (sym kept ∙ z) in
    elim (Bool-cases (s == bps_total)) [
      | inl whole ↦ ground (arith, kept)
      | inr scaled ↦ ground (arith, kept, total-distribute-shares F acc es s nonzero refl)
    ]
