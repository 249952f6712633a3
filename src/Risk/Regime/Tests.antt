-- ===== src/Risk/Regime/Tests.antt =====
-- A Redis key as an optional value, runs of regimeDetector.ts on it, and instances of the theorems.
use nayft_backend.Common.{ℕ, ◌≡◌, refl, List, [], ◌∷◌, Option, none, some, arith}
use nayft_backend.Risk.Regime.{
  normal, elevated, panic, median_crs, wanted_regime, Candidate, CandidateCache, IsReachable,
  detect_market_regime, run_builds, regime_persistence_pending, elevated_median_crs,
}
use nayft_backend.Risk.Regime.Transitions.{◌⟶◌, detect_market_regime-⟶}
use nayft_backend.Risk.Regime.Persistence.{AllWant, run_builds_early, run_builds_change}

abbrev key : CandidateCache (Option Candidate)
key = record { read = λ s. some s; write = λ s c. some (some c); del = λ s. none }

key-IsReachable : IsReachable key
key-IsReachable = record {
  written = λ s c. some c;
  write-some = λ s c. refl;
  read-written = λ s c. refl;
  read-del = λ s. refl;
}

abbrev heated : List ℕ
heated = 700000 ∷ 100000 ∷ 710000 ∷ []

detect_run : (detect_market_regime key 2 none none heated).1 ≡ record {
  market_regime = normal;
  drivers = elevated_median_crs ∷ regime_persistence_pending ∷ [];
  previous_regime = normal;
}
unfolding detect_market_regime
detect_run = refl

heated_want : AllWant normal elevated (heated ∷ [])
unfolding wanted_regime median_crs
heated_want = (refl, tt)

heated_want_twice : AllWant normal elevated (heated ∷ heated ∷ [])
unfolding wanted_regime median_crs
heated_want_twice = (refl, (refl, tt))

detect_market_regime-⟶_example :
    panic ⟶ (detect_market_regime key 2 none (some panic) ([])).1.market_regime
detect_market_regime-⟶_example = detect_market_regime-⟶ key 2 none (some panic) []

run_builds_early_example : (run_builds key 2 none (some normal) (heated ∷ [])).1 ≡ some normal
run_builds_early_example =
    run_builds_early key key-IsReachable 2 normal elevated refl none none (heated ∷ []) refl
      heated_want (omega arith)

run_builds_change_example :
    (run_builds key 2 none (some normal) (heated ∷ heated ∷ [])).1 ≡ some elevated
run_builds_change_example =
    run_builds_change key key-IsReachable 2 normal elevated refl none none (heated ∷ heated ∷ [])
      refl heated_want_twice (omega arith) (omega arith)
