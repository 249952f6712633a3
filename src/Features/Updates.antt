-- ===== src/Features/Updates.antt =====
-- What an update or a registration of a feature does (feature.service.ts, featureRegistry.ts).
use Prim.Native.String.{String}
use nayft_backend.Common.{
  ℕ, ◌≡◌, ◌≢◌, refl, Bool, true, false, not, ◌&&◌, List, [], ◌∷◌, Option, some, arith,
}
use nayft_backend.Features.Registry.{Feature, FeatureStore, IsFeatureStore, is_at, AuditEntry}
use nayft_backend.Features.Service.{
  ok, conflict, Patch, apply_patch, audit_of, write_audit, guard_time, update_safe_fields, is_some,
  get_by_key, cache_del,
}

is_at-ne : {a b : ℕ} → a ≢ b → is_at (some a) b ≡ false
is_at-ne h = ground arith

module _ {S : Type 0} (store : FeatureStore S) (laws : IsFeatureStore store) where
  find_one-write_audit :
      (meanwhile : S → S) (now : ℕ) (s : S) (entries : List AuditEntry) (k : String)
      → store.find_one (write_audit store meanwhile now s entries) k ≡ store.find_one s k
  find_one-write_audit meanwhile now s [] k = refl
  find_one-write_audit meanwhile now s (e ∷ es) k = laws.find_one-audit s (e ∷ es) k

  cache_get-write_audit :
      (meanwhile : S → S) (now : ℕ) (s : S) (entries : List AuditEntry) (k : String)
      → store.cache_get (write_audit store meanwhile now s entries) k ≡ store.cache_get s k
  cache_get-write_audit meanwhile now s [] k = refl
  cache_get-write_audit meanwhile now s (e ∷ es) k = laws.cache_get-audit s (e ∷ es) k

  -- If another request has changed the feature between the read and the write, an update of
  -- `isActive` to a controllable feature is refused as a conflict and writes nothing.
  pub update_safe_fields-conflict :
      (meanwhile : S → S) (now : ℕ) (s : S) (key : String) (updates : Patch) (by : Option String)
      (active : Bool) (f g : Feature)
      → updates.is_active ≡ some active
      → store.find_one s key ≡ some f
      → f.controllable ≡ true
      → store.find_one (meanwhile s) key ≡ some g
      → f.updated_at ≢ g.updated_at
      → update_safe_fields store meanwhile now s key updates by ≡ (meanwhile s, conflict)
  unfolding update_safe_fields
  update_safe_fields-conflict meanwhile now s key updates by active f g e read can current other =
      let stale =
        laws.update-stale (meanwhile s) key (some f.updated_at) (apply_patch updates by now) g
          current (is_at-ne other) in
      ground (arith, stale)

  -- An update that goes through is what the next read of the feature returns, whatever was cached
  -- before, provided that the cached entry could be deleted; it is made to the feature as it is at the
  -- write.
  pub get_by_key-update_safe_fields :
      (meanwhile : S → S) (now : ℕ) (s : S) (key : String) (updates : Patch) (by : Option String)
      (f g : Feature)
      → store.find_one s key ≡ some f
      → (is_some updates.is_active && not f.controllable) ≡ false
      → store.find_one (meanwhile s) key ≡ some g
      → is_at (guard_time store meanwhile now f updates.is_active) g.updated_at ≡ true
      → let (written, found) =
          store.find_one_and_update
            (meanwhile s)
            key
            (guard_time store meanwhile now f updates.is_active)
            (apply_patch updates by now) in
        (store.redis_del written key).1 ≡ true
        → let (s', reply) = update_safe_fields store meanwhile now s key updates by in
          (reply ≡ ok (apply_patch updates by now g))
          × ((get_by_key store s' key).1 ≡ some (apply_patch updates by now g))
  unfolding update_safe_fields get_by_key cache_del
  get_by_key-update_safe_fields meanwhile now s key updates by f g read can current same deleted =
      let at = guard_time store meanwhile now f updates.is_active in
      let change = apply_patch updates by now in
      let hit = laws.update-hit (meanwhile s) key at change g current same in
      let kept = laws.find_one-update (meanwhile s) key at change g current same in
      let s' = (store.find_one_and_update (meanwhile s) key at change).0 in
      let entries = audit_of key f updates by in
      let cleared = (store.redis_del s' key).0 in
      ground (
        arith,
        hit,
        kept,
        find_one-write_audit meanwhile now cleared entries key,
        cache_get-write_audit meanwhile now cleared entries key,
        laws.find_one-redis_del s' key key,
        laws.cache_get-redis_del s' key deleted,
      )
