-- ===== src/Features/Registry.antt =====
-- The documents of src/core/feature-system/feature.model.ts, and the database and cache that hold
-- them. Texts are compared and stored only, and the metadata is the text of its JSON.
use Prim.Native.String.{String}
use nayft_backend.Common.{ℕ, ◌≡◌, Bool, ◌==◌, List, Option, none, some}

pub data Category : Type 0 where
  free premium enterprise : Category

pub record Feature : Type 0 where
  pub key : String
  pub name : String
  pub module_name : String
  pub description : String
  pub is_active : Bool
  pub metadata : String
  pub category : Category
  pub controllable : Bool
  pub critical : Bool
  pub rollout_percentage : Option ℕ
  pub allowed_users : List String
  pub segments : List String
  pub updated_by : Option String
  pub updated_at : ℕ

-- What an audit log entry records.
pub data AuditEntry : Type 0 where
  toggle : String → Bool → Bool → Option String → AuditEntry
  metadata_edit :
      String → Option (String × String) → Option (String × String) → Option String → AuditEntry

-- The MongoDB collection and the Redis cache. `find_one_and_update s k at f` applies `f` to the
-- feature with the key `k`, where `at` asks for a time of its last update too. A `false` of
-- `redis_del` stands for an error that it throws.
pub record FeatureStore (S : Type 0) : Type 0 where
  pub find_one : S → String → Option Feature
  pub find_one_and_update : S → String → Option ℕ → (Feature → Feature) → S × Option Feature
  pub insert_one : S → Feature → S
  pub insert_audit : S → List AuditEntry → S
  pub cache_get : S → String → Option Feature
  pub cache_set : S → String → Feature → S
  pub redis_del : S → String → S × Bool

abbrev pub is_at : Option ℕ → ℕ → Bool
is_at none t = Bool.true
is_at (some u) t = u == t

-- What the documentation of both says: an update finds at most the one feature that its filter
-- names and returns it as it is afterwards; the cache and the audit log are apart from the features.
pub record IsFeatureStore {S : Type 0} (store : FeatureStore S) : Type 0 where
  pub update-miss :
      (s : S) (k : String) (at : Option ℕ) (f : Feature → Feature)
      → store.find_one s k ≡ none
      → store.find_one_and_update s k at f ≡ (s, none)
  pub update-stale :
      (s : S) (k : String) (at : Option ℕ) (f : Feature → Feature) (old : Feature)
      → store.find_one s k ≡ some old
      → is_at at old.updated_at ≡ Bool.false
      → store.find_one_and_update s k at f ≡ (s, none)
  pub update-hit :
      (s : S) (k : String) (at : Option ℕ) (f : Feature → Feature) (old : Feature)
      → store.find_one s k ≡ some old
      → is_at at old.updated_at ≡ Bool.true
      → (store.find_one_and_update s k at f).1 ≡ some (f old)
  pub find_one-update :
      (s : S) (k : String) (at : Option ℕ) (f : Feature → Feature) (old : Feature)
      → store.find_one s k ≡ some old
      → is_at at old.updated_at ≡ Bool.true
      → store.find_one (store.find_one_and_update s k at f).0 k ≡ some (f old)
  pub find_one-insert : (s : S) (x : Feature) → store.find_one (store.insert_one s x) x.key ≡ some x
  pub find_one-audit :
      (s : S) (entries : List AuditEntry) (k : String)
      → store.find_one (store.insert_audit s entries) k ≡ store.find_one s k
  pub find_one-cache_set :
      (s : S) (j k : String) (x : Feature)
      → store.find_one (store.cache_set s j x) k ≡ store.find_one s k
  pub find_one-redis_del :
      (s : S) (j k : String) → store.find_one (store.redis_del s j).0 k ≡ store.find_one s k
  pub cache_get-redis_del :
      (s : S) (k : String)
      → (store.redis_del s k).1 ≡ Bool.true
      → store.cache_get (store.redis_del s k).0 k ≡ none
  pub cache_get-audit :
      (s : S) (entries : List AuditEntry) (k : String)
      → store.cache_get (store.insert_audit s entries) k ≡ store.cache_get s k
