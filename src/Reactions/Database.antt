-- ===== src/Reactions/Database.antt =====
-- The calls of src/modules/reaction/repository.ts, and the counters of a news article. The target
-- of a reaction is always a news article; users and articles are numbers, since their ids are only
-- compared.
use nayft_backend.Common.{ℕ, ◌+◌, ◌≡◌, ◌==◌, if◌then◌else◌, List, [], ◌∷◌, Option, none, some}
use nayft_backend.Common.Int.{ℤ, pos, ◌+ℤ◌}

pub data ReactionType : Type 0 where
  appreciate insightful bullish risk deep_dive debatable : ReactionType

abbrev pub type_code : ReactionType → ℕ
type_code appreciate = 0
type_code insightful = 1
type_code bullish = 2
type_code risk = 3
type_code deep_dive = 4
type_code debatable = 5

-- A field of an article's metrics: `reactions.<type>`, `reactions.total` or `likes`.
pub data Metric : Type 0 where
  reactions : ReactionType → Metric
  total likes : Metric

abbrev pub metric_code : Metric → ℕ
metric_code (reactions t) = type_code t
metric_code total = 6
metric_code likes = 7

pub record ReactionDb (S : Type 0) : Type 0 where
  pub find : S → ℕ → ℕ → Option ReactionType
  pub create : S → ℕ → ℕ → ReactionType → S
  pub update_type : S → ℕ → ℕ → ReactionType → S
  pub delete : S → ℕ → ℕ → S × Option ReactionType
  pub count_by_target : S → ℕ → ReactionType → ℕ
  pub inc : S → ℕ → List (Metric × ℤ) → S
  pub metric : S → ℕ → Metric → ℤ
  pub process_reward : S → ℕ → ReactionType → S

-- What a `$inc` adds to a field.
abbrev pub delta : Metric → List (Metric × ℤ) → ℤ
delta m [] = pos 0
delta m ((k, d) ∷ ds) = if metric_code k == metric_code m then d +ℤ delta m ds else delta m ds

abbrev pub one_if : ReactionType → ReactionType → ℕ
one_if t k = if type_code t == type_code k then 1 else 0

-- What MongoDB documents of these calls, on an article `n` that is there: each user has at most one
-- reaction to it, which the calls add, change or take away, `$inc` adds to its fields,
-- and rewards are kept elsewhere.
pub record IsReactionDb {S : Type 0} (db : ReactionDb S) (n : ℕ) : Type 0 where
  pub find-create : (s : S) (u : ℕ) (t : ReactionType) → db.find (db.create s u n t) u n ≡ some t
  pub count-create :
      (s : S) (u : ℕ) (t k : ReactionType)
      → db.find s u n ≡ none
      → db.count_by_target (db.create s u n t) n k ≡ db.count_by_target s n k + one_if t k
  pub metric-create :
      (s : S) (u : ℕ) (t : ReactionType) (m : Metric)
      → db.metric (db.create s u n t) n m ≡ db.metric s n m
  pub find-update_type :
      (s : S) (u : ℕ) (t old : ReactionType)
      → db.find s u n ≡ some old
      → db.find (db.update_type s u n t) u n ≡ some t
  pub count-update_type :
      (s : S) (u : ℕ) (t old k : ReactionType)
      → db.find s u n ≡ some old
      → db.count_by_target (db.update_type s u n t) n k + one_if old k
        ≡ db.count_by_target s n k + one_if t k
  pub metric-update_type :
      (s : S) (u : ℕ) (t : ReactionType) (m : Metric)
      → db.metric (db.update_type s u n t) n m ≡ db.metric s n m
  pub delete-miss : (s : S) (u : ℕ) → db.find s u n ≡ none → db.delete s u n ≡ (s, none)
  pub delete-hit :
      (s : S) (u : ℕ) (old : ReactionType)
      → db.find s u n ≡ some old
      → (db.delete s u n).1 ≡ some old
  pub find-delete : (s : S) (u : ℕ) → db.find (db.delete s u n).0 u n ≡ none
  pub count-delete :
      (s : S) (u : ℕ) (old k : ReactionType)
      → db.find s u n ≡ some old
      → db.count_by_target (db.delete s u n).0 n k + one_if old k ≡ db.count_by_target s n k
  pub metric-delete :
      (s : S) (u : ℕ) (m : Metric) → db.metric (db.delete s u n).0 n m ≡ db.metric s n m
  pub metric-inc :
      (s : S) (ds : List (Metric × ℤ)) (m : Metric)
      → db.metric (db.inc s n ds) n m ≡ db.metric s n m +ℤ delta m ds
  pub find-inc :
      (s : S) (ds : List (Metric × ℤ)) (u : ℕ) → db.find (db.inc s n ds) u n ≡ db.find s u n
  pub count-inc :
      (s : S) (ds : List (Metric × ℤ)) (k : ReactionType)
      → db.count_by_target (db.inc s n ds) n k ≡ db.count_by_target s n k
  pub metric-process_reward :
      (s : S) (u : ℕ) (t : ReactionType) (m : Metric)
      → db.metric (db.process_reward s u t) n m ≡ db.metric s n m
  pub find-process_reward :
      (s : S) (u v : ℕ) (t : ReactionType) → db.find (db.process_reward s u t) v n ≡ db.find s v n
  pub count-process_reward :
      (s : S) (u : ℕ) (t k : ReactionType)
      → db.count_by_target (db.process_reward s u t) n k ≡ db.count_by_target s n k
