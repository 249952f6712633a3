-- ===== src/Risk/Build.antt =====
-- src/modules/risk/build/riskBuildCoordinator.ts: `runRiskBuild`, its lock, its early returns and its
-- error path. The calls of the other risk services and of the databases are parameters; each changes
-- the stored state and returns a value, or throws.
pub mod Locking
mod Tests
use nayft_backend.Common.{
  ℕ, ◌+◌, ◌<◌, ◌≡◌, ◌==◌, Bool, true, false, not, ◌&&◌, ◌||◌, if◌then◌else◌, List, [], ◌∷◌, Option,
  none, some, ltb,
}

pub data Namespace : Type 0 where
  production shadow replay : Namespace

abbrev pub is_production : Namespace → Bool
is_production production = true
is_production _ = false

abbrev pub is_replay : Namespace → Bool
is_replay replay = true
is_replay _ = false

-- The two Redis keys of the lock; `replay` names that of production.
pub data LockKey : Type 0 where
  build_lock shadow_build_lock : LockKey

abbrev pub lock_key : Namespace → LockKey
lock_key shadow = shadow_build_lock
lock_key _ = build_lock

pub record RiskConfig : Type 0 where
  pub build_enabled : Bool
  pub shadow_mode : Bool

-- The options; `build_id` says whether one is given.
pub record BuildOptions : Type 0 where
  pub build_id : Option ℕ
  pub namespace : Option Namespace
  pub skip_publish : Bool

pub data BuildResult : Type 0 where
  build_disabled lock_not_acquired universe_not_found : BuildResult
  invalid : List ℕ → BuildResult
  failed : BuildResult
  built : ℕ → BuildResult

-- How a step ends: with a value, with a `return` of the whole function, or by throwing.
pub data Ending (A : Type 0) : Type 0 where
  value : A → Ending A
  returned : BuildResult → Ending A
  thrown : Ending A

module _ {S : Type 0} where
  infixl 5 ◌>>=◌ ◌>>◌
  abbrev pub ◌>>=◌ : {A B : Type 0} → (S → S × Ending A) → (A → S → S × Ending B) → S → S × Ending B
  ◌>>=◌ m f s =
      let (s', r) = m s in
      elim r [ value a ↦ f a s' | returned b ↦ (s', returned b) | thrown ↦ (s', thrown) ]

  abbrev pub ◌>>◌ :
      {B : Type 0} → (S → S × Ending (Unit {0})) → (S → S × Ending B) → S → S × Ending B
  m >> k = m >>= λ _. k

  abbrev pub return_if : Bool → BuildResult → S → S × Ending (Unit {0})
  return_if b result s = (s, if b then returned result else value tt)

  abbrev pub when : Bool → (S → S × Ending (Unit {0})) → S → S × Ending (Unit {0})
  when b m s = if b then m s else (s, value tt)

  abbrev pub done : {A : Type 0} → A → S → S × Ending A
  done a s = (s, value a)

-- A universe and the scores of a build are numbers that the services hand on.
pub record BuildServices (S : Type 0) : Type 0 where
  pub set_nx : S → LockKey → S × Bool
  pub del : S → LockKey → S
  pub load_universe : Option ℕ → S → S × Ending (Option ℕ)
  pub compute_scores : ℕ → S → S × Ending ℕ
  pub read_revision : Namespace → S → S × Ending ℕ
  pub validate : ℕ → Option ℕ → ℕ → List ℕ
  pub detect_regime : ℕ → S → S × Ending (Unit {0})
  pub publish : Namespace → ℕ → S → S × Ending ℕ
  pub persist : ℕ → S → S × Ending (Unit {0})
  pub emit_alerts : ℕ → ℕ → S → S × Ending (Unit {0})

abbrev pub is_empty : List ℕ → Bool
is_empty [] = true
is_empty (x ∷ xs) = false

abbrev pub or_default : Option Namespace → Namespace → Namespace
or_default none d = d
or_default (some n) d = n

abbrev pub is_given : Option ℕ → Bool
is_given none = false
is_given (some x) = true

module _ {S : Type 0} (services : BuildServices S) (config : RiskConfig) where
  open services use {
    set_nx, del, load_universe, compute_scores, read_revision, validate, detect_regime, publish,
    persist, emit_alerts,
  }

  -- `acquireBuildLock`.
  unfoldable pub acquire_build_lock : Namespace → S → S × Bool
  acquire_build_lock replay s = (s, false)
  acquire_build_lock production s = set_nx s (lock_key production)
  acquire_build_lock shadow s = set_nx s (lock_key shadow)

  -- `releaseBuildLock`.
  unfoldable pub release_build_lock : Namespace → S → S
  release_build_lock namespace s = del s (lock_key namespace)

  abbrev pub found : Option ℕ → S → S × Ending ℕ
  found none s = (s, returned universe_not_found)
  found (some u) s = (s, value u)

  abbrev pub publish_unless : Bool → Namespace → ℕ → S → S × Ending ℕ
  publish_unless skip namespace expected s =
      if skip then (s, value expected) else publish namespace expected s

  -- The `try` block.
  unfoldable pub build_body : BuildOptions → Namespace → S → S × Ending ℕ
  build_body options namespace = do
    loaded ← load_universe options.build_id
    universe ← found loaded
    scores ← compute_scores universe
    prior ← read_revision namespace
    let expected : ℕ = prior + 1
    let checked = if is_production namespace then some prior else none
    let errors = validate scores checked expected
    return_if (not (is_empty errors) && is_production namespace && not config.shadow_mode)
        (invalid errors)
    detect_regime scores
    revision ← publish_unless options.skip_publish namespace expected
    persist revision
    when (is_production namespace && ltb 0 prior) (emit_alerts revision prior)
    done revision

  -- The `catch`, which turns what was thrown into a result.
  abbrev pub result_of : Ending ℕ → BuildResult
  result_of (value revision) = built revision
  result_of (returned result) = result
  result_of thrown = failed

  abbrev pub namespace_of : BuildOptions → Namespace
  namespace_of options =
      or_default options.namespace (if config.shadow_mode then shadow else production)

  -- The `try` block with its `catch` and its `finally`.
  unfoldable pub guarded_body : BuildOptions → Namespace → S → S × BuildResult
  unfolding build_body release_build_lock
  guarded_body options namespace s =
      let (s', ending) = build_body options namespace s in
      (release_build_lock namespace s', result_of ending)

  -- From `acquireBuildLock` on.
  unfoldable pub locked_build : BuildOptions → Namespace → S → S × BuildResult
  unfolding acquire_build_lock guarded_body
  locked_build options namespace s =
      let (s', locked) = acquire_build_lock namespace s in
      if not locked && not (is_replay namespace)
      then (s', lock_not_acquired)
      else guarded_body options namespace s'

  unfoldable pub run_risk_build : BuildOptions → S → S × BuildResult
  unfolding locked_build
  run_risk_build options s =
      let namespace = namespace_of options in
      if not config.build_enabled && is_production namespace && not (is_given options.build_id)
      then (s, build_disabled)
      else locked_build options namespace s
