-- ===== src/Risk/Regime/Persistence.antt =====
-- The builds in a row that a change of regime waits for (regimeDetector.ts).
use nayft_backend.Common.{
  ℕ, ◌+◌, ◌<◌, ◌≤◌, ◌≡◌, refl, ap, ◌∙◌, false, List, [], ◌∷◌, Option, none, some, arith, All,
  length, if◌then◌else◌,
}
use nayft_backend.Risk.Regime.{
  MarketRegime, regime_eq, median_crs, wanted_regime, CandidateCache, IsReachable, Candidate,
  count_candidate, hold_back, count_wanted, confirm_change, detect_market_regime, run_builds,
  Driver,
}

-- How many builds in a row have wanted the regime, by the cached candidate.
abbrev pub wanted_for : MarketRegime → Option Candidate → ℕ
wanted_for r none = 0
wanted_for r (some c) = if regime_eq c.regime r then c.count else 0

-- The builds whose median asks for a regime, given the previous one.
abbrev pub AllWant : MarketRegime → MarketRegime → List (List ℕ) → Type 0
AllWant previous r = All (λ crs. (wanted_regime previous (median_crs crs)).0 ≡ r)

count_candidate-count :
    (r : MarketRegime) (raw : Option Candidate)
    → (count_candidate r raw).count ≡ wanted_for r raw + 1
count_candidate-count r none = omega arith
count_candidate-count r (some c) = ground arith

wanted_for-count :
    (r : MarketRegime) (raw : Option Candidate)
    → wanted_for r (some (count_candidate r raw)) ≡ wanted_for r raw + 1
wanted_for-count r none = ground arith
wanted_for-count r (some c) = ground arith

module _ {S : Type 0} (cache : CandidateCache S) (up : IsReachable cache) (n : ℕ) where
  count_early :
      (s : S) (previous : MarketRegime) (wanted : MarketRegime × List Driver)
      → (raw : Option Candidate) → wanted_for wanted.0 raw + 1 < n
      → ((count_wanted cache n s previous wanted (some raw)).1 ≡ previous)
        × ((count_wanted cache n s previous wanted (some raw)).0
            ≡ up.written s (count_candidate wanted.0 raw))
  unfolding count_wanted hold_back
  count_early s previous wanted raw early =
      ground
        (arith, count_candidate-count wanted.0 raw, up.write-some s (count_candidate wanted.0 raw))

  count_late :
      (s : S) (previous : MarketRegime) (wanted : MarketRegime × List Driver)
      → (raw : Option Candidate) → n ≤ wanted_for wanted.0 raw + 1
      → (count_wanted cache n s previous wanted (some raw)).1 ≡ wanted.0
  unfolding count_wanted hold_back
  count_late s previous wanted raw late =
      ground
        (arith, count_candidate-count wanted.0 raw, up.write-some s (count_candidate wanted.0 raw))

module _ {S : Type 0} (cache : CandidateCache S) (up : IsReachable cache) (n : ℕ)
    (previous r : MarketRegime) (change : regime_eq r previous ≡ false) where
  detect_early :
      (s : S) (raw : Option Candidate) (crs : List ℕ)
      → cache.read s ≡ some raw
      → (wanted_regime previous (median_crs crs)).0 ≡ r
      → wanted_for r raw + 1 < n
      → ((detect_market_regime cache n s (some previous) crs).1.market_regime ≡ previous)
        × ((detect_market_regime cache n s (some previous) crs).0
            ≡ up.written s (count_candidate r raw))
  unfolding detect_market_regime confirm_change
  detect_early s raw crs stored want early =
      let w = wanted_regime previous (median_crs crs) in
      let (kept, written) = count_early cache up n s previous w raw (rw want early) in
      let changes : regime_eq w.0 previous ≡ false = rw want change in
      rw (changes, stored) (kept, written ∙ ap (λ x. up.written s (count_candidate x raw)) want)

  detect_late :
      (s : S) (raw : Option Candidate) (crs : List ℕ)
      → cache.read s ≡ some raw
      → (wanted_regime previous (median_crs crs)).0 ≡ r
      → n ≤ wanted_for r raw + 1
      → (detect_market_regime cache n s (some previous) crs).1.market_regime ≡ r
  unfolding detect_market_regime confirm_change
  detect_late s raw crs stored want late =
      let w = wanted_regime previous (median_crs crs) in
      let changes : regime_eq w.0 previous ≡ false = rw want change in
      rw (changes, stored) (count_late cache up n s previous w raw (rw want late) ∙ want)

  -- With a reachable Redis, builds that all ask for one other regime do not change the regime while
  -- fewer of them than configured have asked for it in a row.
  pub run_builds_early :
      (s : S) (raw : Option Candidate) (builds : List (List ℕ))
      → cache.read s ≡ some raw
      → AllWant previous r builds
      → wanted_for r raw + length builds < n
      → (run_builds cache n s (some previous) builds).1 ≡ some previous
  unfolding run_builds
  run_builds_early s raw [] stored want early = refl
  run_builds_early s raw (crs ∷ builds) stored want early =
      let (kept, written) = detect_early s raw crs stored want.0 (omega arith) in
      rw (run_builds, kept, written)
        (run_builds_early (up.written s (count_candidate r raw)) (some (count_candidate r raw))
          builds (up.read-written s (count_candidate r raw)) want.1
          (omega (arith, wanted_for-count r raw)))

  -- With a reachable Redis, the build with which as many in a row as configured have asked for one
  -- other regime changes to it.
  pub run_builds_change :
      (s : S) (raw : Option Candidate) (builds : List (List ℕ))
      → cache.read s ≡ some raw
      → AllWant previous r builds
      → 0 < length builds
      → wanted_for r raw + length builds ≡ n
      → (run_builds cache n s (some previous) builds).1 ≡ some r
  unfolding run_builds
  run_builds_change s raw [] stored want some_build exact = absurd (omega arith)
  run_builds_change s raw (crs ∷ []) stored want some_build exact =
      rw (run_builds, detect_late s raw crs stored want.0 (omega arith)) refl
  run_builds_change s raw (crs ∷ crs' ∷ builds) stored want some_build exact =
      let (kept, written) = detect_early s raw crs stored want.0 (omega arith) in
      rw (run_builds, kept, written)
        (run_builds_change (up.written s (count_candidate r raw)) (some (count_candidate r raw))
          (crs' ∷ builds) (up.read-written s (count_candidate r raw)) want.1 (omega arith)
          (omega (arith, wanted_for-count r raw)))
