-- ===== src/Reactions/Counters.antt =====
-- The counters of an article beside the reactions to it (src/modules/reaction/service.ts).
use nayft_backend.Common.{ℕ, ◌+◌, ◌<◌, ◌≡◌, refl, arith}
use nayft_backend.Common.Int.{pos, ◌+ℤ◌}
use nayft_backend.Reactions.Database.{
  ReactionType, appreciate, insightful, bullish, risk, deep_dive, debatable, type_code, Metric,
  reactions, total, likes, ReactionDb, delta, one_if,
}
use nayft_backend.Reactions.Service.{added, removed, switched}

module _ {S : Type 0} (db : ReactionDb S) where
  -- The number of reactions to an article, over the six types.
  abbrev pub count_all : S → ℕ → ℕ
  count_all s n =
      db.count_by_target s n appreciate
      + db.count_by_target s n insightful
      + db.count_by_target s n bullish
      + db.count_by_target s n risk
      + db.count_by_target s n deep_dive
      + db.count_by_target s n debatable

  -- Each counter of the article is the number of reactions that it stands for.
  pub record IsConsistent (s : S) (n : ℕ) : Type 0 where
    pub each : (k : ReactionType) → db.metric s n (reactions k) ≡ pos (db.count_by_target s n k)
    pub all : db.metric s n total ≡ pos (count_all s n)
    pub liked : db.metric s n likes ≡ pos (count_all s n)

pub type_code-lt : (k : ReactionType) → type_code k < 6
type_code-lt appreciate = omega arith
type_code-lt insightful = omega arith
type_code-lt bullish = omega arith
type_code-lt risk = omega arith
type_code-lt deep_dive = omega arith
type_code-lt debatable = omega arith

-- A field's new value under each of the three `$inc`s.
pub add-added :
    (t k : ReactionType) (c a : ℕ)
    → c + one_if t k ≡ a
    → pos c +ℤ delta (reactions k) (added t) ≡ pos a
unfolding ◌+ℤ◌
add-added t k c a e = ground (arith, type_code-lt k)

pub add-removed :
    (t k : ReactionType) (c a : ℕ)
    → a + one_if t k ≡ c
    → pos c +ℤ delta (reactions k) (removed t) ≡ pos a
unfolding ◌+ℤ◌
add-removed t k c a e = ground (arith, type_code-lt k)

pub add-switched :
    (old t k : ReactionType) (c a : ℕ)
    → a + one_if old k ≡ c + one_if t k
    → pos c +ℤ delta (reactions k) (switched old t) ≡ pos a
unfolding ◌+ℤ◌
add-switched old t k c a e = ground arith

-- The fields that count all types.
pub data IsOverall : Metric → Type 0 where
  overall_total : IsOverall total
  overall_likes : IsOverall likes

pub overall_added :
    (t : ReactionType) {m : Metric} (c : ℕ) → IsOverall m → pos c +ℤ delta m (added t) ≡ pos (c + 1)
unfolding ◌+ℤ◌
overall_added t c overall_total = ground (arith, type_code-lt t)
overall_added t c overall_likes = ground (arith, type_code-lt t)

pub overall_removed :
    (t : ReactionType) {m : Metric} (c : ℕ)
    → IsOverall m
    → pos (c + 1) +ℤ delta m (removed t) ≡ pos c
unfolding ◌+ℤ◌
overall_removed t c overall_total = ground (arith, type_code-lt t)
overall_removed t c overall_likes = ground (arith, type_code-lt t)

pub overall_switched :
    (old t : ReactionType) {m : Metric} (c : ℕ)
    → IsOverall m
    → pos c +ℤ delta m (switched old t) ≡ pos c
unfolding ◌+ℤ◌
overall_switched old t c overall_total = ground (arith, type_code-lt t, type_code-lt old)
overall_switched old t c overall_likes = ground (arith, type_code-lt t, type_code-lt old)

pub one_if_sum :
    (t : ReactionType)
    → one_if t appreciate
        + one_if t insightful
        + one_if t bullish
        + one_if t risk
        + one_if t deep_dive
        + one_if t debatable
      ≡ 1
one_if_sum appreciate = refl
one_if_sum insightful = refl
one_if_sum bullish = refl
one_if_sum risk = refl
one_if_sum deep_dive = refl
one_if_sum debatable = refl
