-- ===== src/Risk/Build/Tests.antt =====
-- A store with two lock flags and a revision, and instances of the theorems on runRiskBuild
-- (riskBuildCoordinator.ts).
use nayft_backend.Common.{ℕ, ◌≡◌, refl, Bool, true, false, [], none, some, if◌then◌else◌}
use nayft_backend.Risk.Build.{
  replay, LockKey, build_lock, shadow_build_lock, RiskConfig, BuildOptions, built, value,
  BuildServices, run_risk_build,
}
use nayft_backend.Risk.Build.Locking.{IsLockStore, run_risk_build-lock}

record Store : Type 0 where
  main_locked : Bool
  shadow_locked : Bool
  revision : ℕ

abbrev is_locked : Store → LockKey → Bool
is_locked s build_lock = s.main_locked
is_locked s shadow_build_lock = s.shadow_locked

abbrev set_lock : Store → LockKey → Bool → Store
set_lock s build_lock b = record s { main_locked = b }
set_lock s shadow_build_lock b = record s { shadow_locked = b }

abbrev take_lock : Store → LockKey → Store × Bool
take_lock s k = if is_locked s k then (s, false) else (set_lock s k true, true)

abbrev services : BuildServices Store
services = record {
  set_nx = take_lock;
  del = λ s k. set_lock s k false;
  load_universe = λ id s. (s, value (some 12));
  compute_scores = λ u s. (s, value u);
  read_revision = λ n s. (s, value s.revision);
  validate = λ scores prior next. [];
  detect_regime = λ scores s. (s, value tt);
  publish = λ n r s. (record s { revision = r }, value r);
  persist = λ r s. (s, value tt);
  emit_alerts = λ r p s. (s, value tt);
}

taken_lem : (s : Store) (k : LockKey) → is_locked s k ≡ true → take_lock s k ≡ (s, false)
taken_lem s k h = rw h

free_lem : (s : Store) (k : LockKey) → is_locked s k ≡ false → (take_lock s k).1 ≡ true
free_lem s k h = rw h

set_lock_lem : (s : Store) (k : LockKey) → is_locked (set_lock s k false) k ≡ false
set_lock_lem s build_lock = refl
set_lock_lem s shadow_build_lock = refl

services-IsLockStore : IsLockStore services
services-IsLockStore = record {
  locked = is_locked;
  set_nx-taken = taken_lem;
  set_nx-free = free_lem;
  locked-del = set_lock_lem;
}

abbrev config : RiskConfig
config = record { build_enabled = true; shadow_mode = false }

abbrev idle : Store
idle = record { main_locked = false; shadow_locked = false; revision = 4 }

abbrev busy : Store
busy = record idle { main_locked = true }

abbrev plain : BuildOptions
plain = record { build_id = none; namespace = none; skip_publish = false }

abbrev replaying : BuildOptions
replaying = record { build_id = some 1; namespace = some replay; skip_publish = true }

idle_run : run_risk_build services config plain idle ≡ (record idle { revision = 5 }, built 5)
unfolding run_risk_build
idle_run = refl

run_risk_build-lock_example :
    (is_locked busy build_lock ≡ true → (run_risk_build services config plain busy).0 ≡ busy)
    × (is_locked busy build_lock ≡ false
        → is_locked (run_risk_build services config plain busy).0 build_lock ≡ false)
unfolding services-IsLockStore
run_risk_build-lock_example =
    run_risk_build-lock services services-IsLockStore config plain busy refl

-- A replay build takes no lock, and yet the lock of production, which another build holds, is free
-- when it ends.
replay_test : is_locked (run_risk_build services config replaying busy).0 build_lock ≡ false
unfolding run_risk_build
replay_test = refl
