-- ===== src/Features/Tests.antt =====
-- A store of features as functions of the key, and instances of the theorems on feature.service.ts.
use Prim.Native.String.{String}
use Prim.Native.Char.{code}
use text.Mathlib.Text.{◌==◌ as str_eq}
use text.Mathlib.TextPositions.{eq_refl}
use nayft_backend.Common.{
  ℕ, ◌≡◌, refl, true, false, List, [], ◌∷◌, ◌++◌, Option, none, some, arith, if◌then◌else◌,
}
use nayft_backend.Features.Registry.{free, Feature, FeatureStore, IsFeatureStore, AuditEntry, is_at}
use nayft_backend.Features.Service.{
  simple_hash, UserContext, ok, conflict, decide_enabled, get_by_key, Patch, apply_patch,
  update_safe_fields, FeatureConfig,
}
use nayft_backend.Features.Rollout.{rollout_monotone}
use nayft_backend.Features.Updates.{update_safe_fields-conflict, get_by_key-update_safe_fields}

abbrev code_units : String → List ℕ
code_units String.[] = []
code_units (String.◌∷◌ c s) = code c ∷ code_units s

record Store : Type 0 where
  features : String → Option Feature
  cache : String → Option Feature
  audit : List AuditEntry

abbrev assign : String → Option Feature → (String → Option Feature) → String → Option Feature
assign k x m j = if str_eq j k then x else m j

abbrev change :
    Store → String → Option ℕ → (Feature → Feature) → Option Feature → Store × Option Feature
change s k at f none = (s, none)
change s k at f (some old) =
    if is_at at old.updated_at
    then (record s { features = assign k (some (f old)) s.features }, some (f old))
    else (s, none)

abbrev store : FeatureStore Store
store = record {
  find_one = λ s. s.features;
  find_one_and_update = λ s k at f. change s k at f (s.features k);
  insert_one = λ s x. record s { features = assign x.key (some x) s.features };
  insert_audit = λ s entries. record s { audit = s.audit ++ entries };
  cache_get = λ s. s.cache;
  cache_set = λ s k x. record s { cache = assign k (some x) s.cache };
  redis_del = λ s k. (record s { cache = assign k none s.cache }, true);
}

change-stale :
    (s : Store) (k : String) (at : Option ℕ) (f : Feature → Feature) (old : Feature)
    → s.features k ≡ some old
    → is_at at old.updated_at ≡ false
    → change s k at f (s.features k) ≡ (s, none)
change-stale s k at f old e stale = rw (e, stale) refl

change-hit :
    (s : Store) (k : String) (at : Option ℕ) (f : Feature → Feature) (old : Feature)
    → s.features k ≡ some old
    → is_at at old.updated_at ≡ true
    → (change s k at f (s.features k)).1 ≡ some (f old)
change-hit s k at f old e hit = rw (e, hit) refl

change-found :
    (s : Store) (k : String) (at : Option ℕ) (f : Feature → Feature) (old : Feature)
    → s.features k ≡ some old
    → is_at at old.updated_at ≡ true
    → (change s k at f (s.features k)).0.features k ≡ some (f old)
change-found s k at f old e hit = rw (e, hit, eq_refl k) refl

store-IsFeatureStore : IsFeatureStore store
store-IsFeatureStore = record {
  update-miss = λ s k at f e. rw e refl;
  update-stale = change-stale;
  update-hit = change-hit;
  find_one-update = change-found;
  find_one-insert = λ s x. rw (eq_refl x.key) refl;
  find_one-audit = λ s entries k. refl;
  find_one-cache_set = λ s j k x. refl;
  find_one-redis_del = λ s j k. refl;
  cache_get-redis_del = λ s k e. rw (eq_refl k) refl;
  cache_get-audit = λ s entries k. refl;
}

abbrev rewards : Feature
rewards = record {
  key = "rewards";
  name = "Rewards";
  module_name = "rewards";
  description = "";
  is_active = true;
  metadata = "{}";
  category = free;
  controllable = true;
  critical = false;
  rollout_percentage = some 10;
  allowed_users = [];
  segments = [];
  updated_by = none;
  updated_at = 5;
}

abbrev full : Store
full = record {
  features = assign "rewards" (some rewards) (λ k. none);
  cache = assign "rewards" (some rewards) (λ k. none);
  audit = [];
}

abbrev alice : UserContext
alice = record { user_id = some "alice"; segment = none }

hash_run : simple_hash (code_units "alice") ≡ 92903040
unfolding simple_hash
hash_run = refl

abbrev at_half : Feature
at_half = record rewards { rollout_percentage = some 50 }

half_on : decide_enabled code_units "rewards" (some at_half) alice ≡ ok true
unfolding decide_enabled simple_hash
half_on = refl

rollout_monotone_example :
    decide_enabled code_units "rewards"
      (some (record at_half { rollout_percentage = some 80 }))
      alice
    ≡ ok true
rollout_monotone_example =
    rollout_monotone code_units "rewards" at_half alice 50 80 refl (omega arith) (omega arith)
      half_on

abbrev switch_off : Patch
switch_off = record { name = none; description = none; is_active = some false }

-- Another administrator renames the feature at time 6.
abbrev renamed : Feature
renamed = record rewards { name = "Points"; updated_at = 6 }

abbrev rename : Store → Store
rename s = record s { features = assign "rewards" (some renamed) s.features }

update_safe_fields-conflict_example :
    update_safe_fields store rename 9 full "rewards" switch_off none ≡ (rename full, conflict)
update_safe_fields-conflict_example =
    update_safe_fields-conflict store store-IsFeatureStore rename 9 full "rewards" switch_off none
      false rewards renamed refl refl refl refl (omega arith)

get_by_key-update_safe_fields_example :
    let (s', reply) = update_safe_fields store (λ s. s) 9 full "rewards" switch_off none in
    (reply ≡ ok (apply_patch switch_off none 9 rewards))
    × ((get_by_key store s' "rewards").1 ≡ some (apply_patch switch_off none 9 rewards))
get_by_key-update_safe_fields_example =
    get_by_key-update_safe_fields store store-IsFeatureStore (λ s. s) 9 full "rewards" switch_off
      none rewards rewards refl refl refl refl refl

abbrev config : FeatureConfig
config = record {
  key = "rewards";
  name = "New name";
  module_name = "rewards";
  description = "";
  metadata = "{}";
  category = free;
  controllable = false;
  critical = none;
}
