-- ===== src/Features/Service.antt =====
-- src/core/feature-system/feature.service.ts and featureRegistry.ts.
use Prim.Native.String.{String}
use text.Mathlib.Text.{◌==◌ as str_eq}
use nayft_backend.Common.{
  ℕ, ◌+◌, ◌-◌, ◌*◌, ◌%◌, Bool, true, false, not, ◌||◌, ◌&&◌, if◌then◌else◌, List, [], ◌∷◌, ◌++◌,
  Option, none, some, ltb, any,
}
use nayft_backend.Features.Registry.{
  Category, Feature, AuditEntry, toggle, metadata_edit, FeatureStore,
}

abbrev pub word : ℕ
word = 4294967296

-- One round of `simpleHash`: `h = (h << 5) - h + c; h |= 0`, on the two's complement of 32 bits.
abbrev pub hash_step : ℕ → ℕ → ℕ
hash_step h c = (h * 32 % word + (word - h) + c) % word

unfoldable pub hash_from : ℕ → List ℕ → ℕ
hash_from h [] = h
hash_from h (c ∷ cs) = hash_from (hash_step h c) cs

-- `simpleHash` of the code units of a text, with its `Math.abs`.
unfoldable pub simple_hash : List ℕ → ℕ
unfolding hash_from
simple_hash units = let h : ℕ = hash_from 0 units in if ltb h 2147483648 then h else word - h

pub record UserContext : Type 0 where
  pub user_id : Option String
  pub segment : Option String

pub data Reply (A : Type 0) : Type 0 where
  ok : A → Reply A
  not_found not_controllable conflict critical_missing : Reply A

abbrev pub includes : List String → String → Bool
includes xs x = any (λ y. str_eq y x) xs

abbrev pub lists : List String → Option String → Bool
lists xs none = false
lists xs (some x) = if str_eq x "" then false else includes xs x

abbrev pub is_listed : List String → Bool
is_listed [] = false
is_listed (x ∷ xs) = true

-- `rolloutPercentage != null && rolloutPercentage > 0`.
abbrev pub rollout_of : Option ℕ → Option ℕ
rollout_of none = none
rollout_of (some p) = if ltb 0 p then some p else none

-- `context?.userId || 'anonymous'`.
abbrev pub rollout_id : Option String → String
rollout_id none = "anonymous"
rollout_id (some id) = if str_eq id "" then "anonymous" else id

module _ (units : String → List ℕ) where
  abbrev pub in_rollout : Option ℕ → UserContext → Bool → Bool
  in_rollout none context active = active
  in_rollout (some p) context active =
      ltb (simple_hash (units (rollout_id context.user_id)) % 100) p

  -- `isEnabled`, once the feature is read; `units` gives the code units of a text.
  unfoldable pub decide_enabled : String → Option Feature → UserContext → Reply Bool
  decide_enabled feature_key none context =
      if str_eq feature_key "auth" || str_eq feature_key "system"
      then critical_missing
      else ok false
  decide_enabled feature_key (some feature) context =
      if feature.critical && not feature.is_active
      then critical_missing
      else if is_listed feature.allowed_users
      then ok (lists feature.allowed_users context.user_id)
      else if is_listed feature.segments
      then ok (lists feature.segments context.segment)
      else ok (in_rollout (rollout_of feature.rollout_percentage) context feature.is_active)

module _ {S : Type 0} (store : FeatureStore S) where
  abbrev pub keep_read : S → String → Option Feature → S × Option Feature
  keep_read s key none = (s, none)
  keep_read s key (some f) = (store.cache_set s key f, some f)

  abbrev pub read_through : S → String → Option Feature → S × Option Feature
  read_through s key (some f) = (s, some f)
  read_through s key none = keep_read s key (store.find_one s key)

  -- `getByKey`: the cache first, then the database, which fills the cache.
  unfoldable pub get_by_key : S → String → S × Option Feature
  get_by_key s key = read_through s key (store.cache_get s key)

  -- `isEnabled`.
  unfoldable pub is_enabled : (String → List ℕ) → S → String → UserContext → S × Reply Bool
  unfolding get_by_key decide_enabled
  is_enabled units s key context =
      let (s', f) = get_by_key s key in (s', decide_enabled units key f context)

-- The validated body of a PATCH.
pub record Patch : Type 0 where
  pub name : Option String
  pub description : Option String
  pub is_active : Option Bool

abbrev pub or_else {ℓ} : {A : Type ℓ} → Option A → A → A
or_else none d = d
or_else (some a) d = a

abbrev pub is_some {ℓ} : {A : Type ℓ} → Option A → Bool
is_some none = false
is_some (some a) = true

-- `...(updatedBy && { updatedBy })`: an empty text changes nothing either.
abbrev pub updater : Option String → Option String → Option String
updater none old = old
updater (some by) old = if str_eq by "" then old else some by

-- The `$set` of `updateSafeFields`.
unfoldable pub apply_patch : Patch → Option String → ℕ → Feature → Feature
apply_patch updates by now f = record f {
  name = or_else updates.name f.name;
  description = or_else updates.description f.description;
  is_active = or_else updates.is_active f.is_active;
  updated_by = updater by f.updated_by;
  updated_at = now;
}

abbrev pub change_of : String → Option String → Option (String × String)
change_of old none = none
change_of old (some new) = some (old, new)

abbrev pub toggle_entry : String → Feature → Option Bool → Option String → List AuditEntry
toggle_entry key f none by = []
toggle_entry key f (some active) by = toggle key f.is_active active by ∷ []

unfoldable pub audit_of : String → Feature → Patch → Option String → List AuditEntry
audit_of key f updates by =
    toggle_entry key f updates.is_active by
    ++ (if is_some updates.name || is_some updates.description
        then metadata_edit key (change_of f.name updates.name)
            (change_of f.description updates.description) by
          ∷ []
        else [])

module _ {S : Type 0} (store : FeatureStore S) where
  -- `cacheHelpers.del`, which catches the error of a failed deletion.
  unfoldable pub cache_del : S → String → S
  cache_del s key = let (s', deleted) = store.redis_del s key in s'

module _ {S : Type 0} (store : FeatureStore S) (meanwhile : S → S) (now : ℕ) where
  abbrev pub write_audit : S → List AuditEntry → S
  write_audit s [] = s
  write_audit s (e ∷ entries) = store.insert_audit s (e ∷ entries)

  abbrev pub finish_update :
      String → Feature → Patch → Option String → S × Option Feature → S × Reply Feature
  finish_update key f updates by (s, none) = (s, conflict)
  finish_update key f updates by (s, some updated) =
      (write_audit (cache_del store s key) (audit_of key f updates by), ok updated)

  -- The update is guarded by the time that was read only where it changes `isActive`.
  abbrev pub guard_time : Feature → Option Bool → Option ℕ
  guard_time f none = none
  guard_time f (some active) = some f.updated_at

  abbrev pub update_found : S → String → Patch → Option String → Feature → S × Reply Feature
  update_found s key updates by f =
      if is_some updates.is_active && not f.controllable
      then (s, not_controllable)
      else finish_update key f updates by (
          store.find_one_and_update (meanwhile s) key (guard_time f updates.is_active)
            (apply_patch updates by now))

  abbrev pub update_read : S → String → Patch → Option String → Option Feature → S × Reply Feature
  update_read s key updates by none = (s, not_found)
  update_read s key updates by (some f) = update_found s key updates by f

  -- `updateSafeFields`; `meanwhile` is what other requests do between its read and its write.
  unfoldable pub update_safe_fields : S → String → Patch → Option String → S × Reply Feature
  unfolding audit_of apply_patch cache_del
  update_safe_fields s key updates by = update_read s key updates by (store.find_one s key)

-- `FeatureConfig`, with its defaults filled in.
pub record FeatureConfig : Type 0 where
  pub key : String
  pub name : String
  pub module_name : String
  pub description : String
  pub metadata : String
  pub category : Category
  pub controllable : Bool
  pub critical : Option Bool

unfoldable pub refresh : FeatureConfig → ℕ → Feature → Feature
refresh config now f = record f {
  module_name = config.module_name;
  metadata = config.metadata;
  category = config.category;
  controllable = config.controllable;
  critical = or_else config.critical f.critical;
  updated_at = now;
}

unfoldable pub fresh : FeatureConfig → ℕ → Feature
fresh config now = record {
  key = config.key;
  name = config.name;
  module_name = config.module_name;
  description = config.description;
  is_active = true;
  metadata = config.metadata;
  category = config.category;
  controllable = config.controllable;
  critical = or_else config.critical false;
  rollout_percentage = none;
  allowed_users = [];
  segments = [];
  updated_by = none;
  updated_at = now;
}

-- The upsert of `registerFeature`.
unfoldable pub register_feature : {S : Type 0} → FeatureStore S → S → FeatureConfig → ℕ → S
unfolding refresh fresh
register_feature store s config now =
    let (s', updated) = store.find_one_and_update s config.key none (refresh config now) in
    if is_some updated then s' else store.insert_one s (fresh config now)
