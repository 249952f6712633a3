-- ===== src/Risk/Regime.antt =====
-- src/modules/risk/regime/regimeDetector.ts: the market regime with hysteresis, and the regime of a
-- coin. A score is a count of millionths, as `roundCrs` leaves it; a median is a count of halves of
-- a millionth, so that the mean of two scores is exact.
pub mod Transitions
pub mod Persistence
mod Tests
use nayft_backend.Common.{
  ℕ, ◌+◌, ◌*◌, ◌-◌, ◌/◌, ◌%◌, ◌<◌, ◌≡◌, ◌==◌, ◌&&◌, Bool, if◌then◌else◌, List, [], ◌∷◌, ◌++◌,
  Option, none, some, ltb, leb, length, get_elem?,
}
use nayft_backend.Common.Sorting.{sort}

pub data MarketRegime : Type 0 where
  low_risk normal elevated panic euphoric : MarketRegime

abbrev pub regime_code : MarketRegime → ℕ
regime_code low_risk = 0
regime_code normal = 1
regime_code elevated = 2
regime_code panic = 3
regime_code euphoric = 4

-- `===` on the regimes' names.
abbrev pub regime_eq : MarketRegime → MarketRegime → Bool
regime_eq a b = regime_code a == regime_code b

pub data Driver : Type 0 where
  high_median_crs elevated_median_crs low_median_crs : Driver
  panic_cooldown regime_persistence_pending : Driver

abbrev pub value_at : List ℕ → ℕ → ℕ
value_at xs i = elim (get_elem? xs i) [ some x ↦ x | none ↦ 0 ]

-- Twice the median; 0.5 if there is no score. `value_at` is read within the list only.
unfoldable pub median_crs : List ℕ → ℕ
unfolding sort
median_crs crs =
    let values = sort leb crs in
    let n : ℕ = length values in
    let mid : ℕ = n / 2 in
    if n == 0
    then 1000000
    else if n % 2 == 0
    then value_at values (mid - 1) + value_at values mid
    else 2 * value_at values mid

-- A bound such as 0.65, in hundredths, on the scale of a median.
abbrev pub hundredths : ℕ → ℕ
hundredths n = n * 20000

unfoldable pub candidate_of : ℕ → MarketRegime × List Driver
candidate_of med =
    if ltb (hundredths 80) med
    then (panic, high_median_crs ∷ [])
    else if ltb (hundredths 65) med
    then (elevated, elevated_median_crs ∷ [])
    else if ltb med (hundredths 25)
    then (euphoric, low_median_crs ∷ [])
    else if ltb med (hundredths 35)
    then (low_risk, low_median_crs ∷ [])
    else (normal, [])

abbrev pub from_normal : ℕ → MarketRegime → MarketRegime
from_normal med candidate =
    if ltb (hundredths 80) med
    then panic
    else if ltb (hundredths 65) med
    then elevated
    else if regime_eq candidate euphoric
    then candidate
    else if regime_eq candidate low_risk
    then candidate
    else normal

-- The regime that the median asks for, given the previous one.
unfoldable pub next_regime : MarketRegime → ℕ → MarketRegime → MarketRegime
next_regime panic med candidate = if ltb med (hundredths 72) then elevated else panic
next_regime elevated med candidate =
    if ltb (hundredths 80) med then panic else if ltb med (hundredths 58) then normal else elevated
next_regime normal med candidate = from_normal med candidate
next_regime low_risk med candidate = candidate
next_regime euphoric med candidate = candidate

-- The `panic_cooldown` rule.
abbrev pub cool_down : MarketRegime → MarketRegime × List Driver → MarketRegime × List Driver
cool_down panic (normal, drivers) = (elevated, drivers ++ panic_cooldown ∷ [])
cool_down _ wanted = wanted

unfoldable pub wanted_regime : MarketRegime → ℕ → MarketRegime × List Driver
unfolding candidate_of next_regime
wanted_regime previous med =
    let candidate = candidate_of med in
    cool_down previous (next_regime previous med candidate.0, candidate.1)

pub record Candidate : Type 0 where
  pub regime : MarketRegime
  pub count : ℕ

-- The Redis key REGIME_CANDIDATE_KEY. `read` is `none` where the call or the parse throws, and
-- `write` where the call throws.
pub record CandidateCache (S : Type 0) : Type 0 where
  pub read : S → Option (Option Candidate)
  pub write : S → Candidate → Option S
  pub del : S → S

-- A reachable Redis gives back what was written last, and nothing after a delete.
pub record IsReachable {S : Type 0} (cache : CandidateCache S) : Type 0 where
  pub written : S → Candidate → S
  pub write-some : (s : S) (c : Candidate) → cache.write s c ≡ some (written s c)
  pub read-written : (s : S) (c : Candidate) → cache.read (written s c) ≡ some (some c)
  pub read-del : (s : S) → cache.read (cache.del s) ≡ some none

abbrev pub count_candidate : MarketRegime → Option Candidate → Candidate
count_candidate wanted none = record { regime = wanted; count = 1 }
count_candidate wanted (some c) =
    if regime_eq c.regime wanted
    then record c { count = c.count + 1 }
    else record { regime = wanted; count = 1 }

pub record Detection : Type 0 where
  pub market_regime : MarketRegime
  pub drivers : List Driver
  pub previous_regime : MarketRegime

abbrev pub or_normal : Option MarketRegime → MarketRegime
or_normal none = normal
or_normal (some r) = r

module _ {S : Type 0} (cache : CandidateCache S) (persistence_builds : ℕ) where
  -- After the candidate was stored; `none` where that threw, and the wanted regime is kept.
  unfoldable pub hold_back :
      S
      → MarketRegime
      → MarketRegime × List Driver
      → Candidate
      → Option S
      → S × MarketRegime × List Driver
  hold_back s previous wanted parsed none = (s, wanted.0, wanted.1)
  hold_back s previous wanted parsed (some s') =
      if ltb parsed.count persistence_builds
      then (s', previous, wanted.1 ++ regime_persistence_pending ∷ [])
      else (s', wanted.0, wanted.1)

  -- After the candidate was read.
  unfoldable pub count_wanted :
      S
      → MarketRegime
      → MarketRegime × List Driver
      → Option (Option Candidate)
      → S × MarketRegime × List Driver
  unfolding hold_back
  count_wanted s previous wanted none = (s, wanted.0, wanted.1)
  count_wanted s previous wanted (some raw) =
      let parsed = count_candidate wanted.0 raw in
      hold_back s previous wanted parsed (cache.write s parsed)

  -- The `try` block: a change is kept back until it was wanted in enough builds in a row.
  unfoldable pub confirm_change :
      S → MarketRegime → MarketRegime × List Driver → S × MarketRegime × List Driver
  unfolding count_wanted
  confirm_change s previous wanted = count_wanted s previous wanted (cache.read s)

  unfoldable pub detect_market_regime : S → Option MarketRegime → List ℕ → S × Detection
  unfolding wanted_regime median_crs confirm_change
  detect_market_regime s prev crs =
      let previous = or_normal prev in
      let wanted = wanted_regime previous (median_crs crs) in
      let (s', market_regime, drivers) =
        if regime_eq wanted.0 previous
        then (cache.del s, wanted.0, wanted.1)
        else confirm_change s previous wanted in
      (s', record { market_regime = market_regime; drivers = drivers; previous_regime = previous })

  -- Builds in a row: `persistRegimes` records each result, and the next build reads it back.
  unfoldable pub run_builds : S → Option MarketRegime → List (List ℕ) → S × Option MarketRegime
  unfolding detect_market_regime
  run_builds s prev [] = (s, prev)
  run_builds s prev (crs ∷ builds) =
      let (s', found) = detect_market_regime s prev crs in
      run_builds s' (some found.market_regime) builds

-- `coinRegimeFromCrs`; the score is in millionths.
unfoldable pub coin_regime_from_crs : ℕ → MarketRegime → MarketRegime
coin_regime_from_crs crs market_regime =
    if ltb 750000 crs
    then elevated
    else if ltb 900000 crs
    then panic
    else if regime_eq market_regime panic && ltb 600000 crs
    then elevated
    else if ltb crs 250000
    then low_risk
    else normal
