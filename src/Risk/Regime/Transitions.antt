-- ===== src/Risk/Regime/Transitions.antt =====
-- Which changes of the market regime a build can make (regimeDetector.ts).
use nayft_backend.Common.{ℕ, ◌≢◌, List, Option, none, some, arith, ltb, inl, inr, Bool-cases}
use nayft_backend.Risk.Regime.{
  MarketRegime, low_risk, normal, elevated, panic, euphoric, regime_eq, median_crs, wanted_regime,
  CandidateCache, Candidate, hold_back, count_wanted, confirm_change, detect_market_regime,
  or_normal, coin_regime_from_crs, count_candidate, Driver,
}

infix 40 ◌⟶◌
-- The changes of regime: a panic is left only for elevated, and elevated only for panic or normal.
pub data ◌⟶◌ : MarketRegime → MarketRegime → Type 0 where
  stay : {r : MarketRegime} → r ⟶ r
  calm_down : panic ⟶ elevated
  worsen : elevated ⟶ panic
  recover : elevated ⟶ normal
  leave_normal : {r : MarketRegime} → normal ⟶ r
  leave_low_risk : {r : MarketRegime} → low_risk ⟶ r
  leave_euphoric : {r : MarketRegime} → euphoric ⟶ r

wanted_regime-⟶ : (previous : MarketRegime) (med : ℕ) → previous ⟶ (wanted_regime previous med).0
unfolding wanted_regime
wanted_regime-⟶ low_risk med = leave_low_risk
wanted_regime-⟶ normal med = leave_normal
wanted_regime-⟶ euphoric med = leave_euphoric
wanted_regime-⟶ elevated med = grind (arith, stay, worsen, recover)
wanted_regime-⟶ panic med = grind (arith, stay, calm_down)

module _ {S : Type 0} (cache : CandidateCache S) (n : ℕ) where
  hold_back-⟶ :
      (s : S) (previous wanted : MarketRegime) (drivers : List Driver) (c : Candidate)
      → (o : Option S) → previous ⟶ wanted
      → previous ⟶ (hold_back cache n s previous (wanted, drivers) c o).1
  unfolding hold_back
  hold_back-⟶ s previous wanted drivers c none h = h
  hold_back-⟶ s previous wanted drivers c (some s') h = elim (Bool-cases (ltb c.count n)) [
    | inl early ↦ rw early stay
    | inr late ↦ rw late h
  ]

  count_wanted-⟶ :
      (s : S) (previous wanted : MarketRegime) (drivers : List Driver)
      → (o : Option (Option Candidate)) → previous ⟶ wanted
      → previous ⟶ (count_wanted cache n s previous (wanted, drivers) o).1
  unfolding count_wanted
  count_wanted-⟶ s previous wanted drivers none h = h
  count_wanted-⟶ s previous wanted drivers (some raw) h =
      let c = count_candidate wanted raw in
      hold_back-⟶ s previous wanted drivers c (cache.write s c) h

  -- Whatever the cache answers, and also if it fails, a build keeps the regime or changes it along
  -- one of the allowed steps.
  pub detect_market_regime-⟶ :
      (s : S) (prev : Option MarketRegime) (crs : List ℕ)
      → or_normal prev ⟶ (detect_market_regime cache n s prev crs).1.market_regime
  unfolding detect_market_regime confirm_change
  detect_market_regime-⟶ s prev crs =
      let previous = or_normal prev in
      let wanted = wanted_regime previous (median_crs crs) in
      let step : previous ⟶ wanted.0 = wanted_regime-⟶ previous (median_crs crs) in
      elim (Bool-cases (regime_eq wanted.0 previous)) [
        | inl same ↦ rw same step
        | inr change ↦ rw change (count_wanted-⟶ s previous wanted.0 wanted.1 (cache.read s) step)
      ]

-- A coin's regime is never `panic`, at any score: the test for it stands behind a weaker one.
pub coin_regime-ne-panic :
    (crs : ℕ) (market_regime : MarketRegime) → coin_regime_from_crs crs market_regime ≢ panic
unfolding coin_regime_from_crs
coin_regime-ne-panic crs market_regime = ground arith
