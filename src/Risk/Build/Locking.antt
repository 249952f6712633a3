-- ===== src/Risk/Build/Locking.antt =====
-- The lock of a risk build, and what an invalid build leaves alone (riskBuildCoordinator.ts).
use nayft_backend.Common.{ℕ, ◌≡◌, refl, Bool, true, false, not, ◌&&◌, inl, inr, Bool-cases}
use nayft_backend.Risk.Build.{
  Namespace, production, shadow, replay, is_production, is_replay, LockKey, build_lock,
  shadow_build_lock, lock_key, RiskConfig, BuildOptions, BuildServices, acquire_build_lock,
  release_build_lock, build_body, guarded_body, locked_build, namespace_of, run_risk_build,
  is_given,
}

abbrev pub lock_code : LockKey → ℕ
lock_code build_lock = 0
lock_code shadow_build_lock = 1

-- SET with NX takes a free key and leaves a taken one alone; DEL frees the key.
pub record IsLockStore {S : Type 0} (services : BuildServices S) : Type 0 where
  pub locked : S → LockKey → Bool
  pub set_nx-taken : (s : S) (k : LockKey) → locked s k ≡ true → services.set_nx s k ≡ (s, false)
  pub set_nx-free : (s : S) (k : LockKey) → locked s k ≡ false → (services.set_nx s k).1 ≡ true
  pub locked-del : (s : S) (k : LockKey) → locked (services.del s k) k ≡ false

module _ {S : Type 0} (services : BuildServices S) (store : IsLockStore services)
    (config : RiskConfig) (options : BuildOptions) where
  guarded_body-locked :
      (namespace : Namespace) (s : S)
      → store.locked (guarded_body services config options namespace s).0 (lock_key namespace)
        ≡ false
  unfolding guarded_body release_build_lock
  guarded_body-locked namespace s =
      store.locked-del (build_body services config options namespace s).0 (lock_key namespace)

  locked_build-taken :
      (namespace : Namespace) (s : S)
      → is_replay namespace ≡ false
      → store.locked s (lock_key namespace) ≡ true
      → (locked_build services config options namespace s).0 ≡ s
  unfolding locked_build acquire_build_lock
  locked_build-taken production s h taken = rw (store.set_nx-taken s build_lock taken)
  locked_build-taken shadow s h taken = rw (store.set_nx-taken s shadow_build_lock taken)
  locked_build-taken replay s h taken = cc

  locked_build-free :
      (namespace : Namespace) (s : S)
      → store.locked s (lock_key namespace) ≡ false
      → store.locked (locked_build services config options namespace s).0 (lock_key namespace)
        ≡ false
  unfolding locked_build acquire_build_lock
  locked_build-free production s free =
      rw (store.set_nx-free s build_lock free)
        (guarded_body-locked production (services.set_nx s build_lock).0)
  locked_build-free shadow s free =
      rw (store.set_nx-free s shadow_build_lock free)
        (guarded_body-locked shadow (services.set_nx s shadow_build_lock).0)
  locked_build-free replay s free = guarded_body-locked replay s

  -- A build that is no replay changes nothing if it finds its lock taken; if it finds the lock free,
  -- the lock is free again afterwards, also where a step of the build threw.
  pub run_risk_build-lock :
      (s : S)
      → is_replay (namespace_of services config options) ≡ false
      → let k = lock_key (namespace_of services config options) in
        let s' = (run_risk_build services config options s).0 in
        (store.locked s k ≡ true → s' ≡ s) × (store.locked s k ≡ false → store.locked s' k ≡ false)
  unfolding run_risk_build
  run_risk_build-lock s no_replay =
      let namespace = namespace_of services config options in
      let disabled =
        not config.build_enabled && is_production namespace && not (is_given options.build_id) in
      elim (Bool-cases disabled) [
        | inl e ↦ rw e ((λ taken. refl), (λ free. free))
        | inr e ↦ rw e (locked_build-taken namespace s no_replay, locked_build-free namespace s)
      ]
