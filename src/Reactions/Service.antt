-- ===== src/Reactions/Service.antt =====
-- src/modules/reaction/service.ts.
use nayft_backend.Common.{ℕ, ◌==◌, if◌then◌else◌, List, [], ◌∷◌, Option, none, some}
use nayft_backend.Common.Int.{ℤ, pos, negsuc}
use nayft_backend.Reactions.Database.{
  ReactionType, appreciate, insightful, bullish, risk, deep_dive, debatable, type_code, Metric,
  reactions, total, likes, ReactionDb,
}

-- `ReactionCounts`.
pub record ReactionCounts : Type 0 where
  pub appreciate_count : ℤ
  pub insightful_count : ℤ
  pub bullish_count : ℤ
  pub risk_count : ℤ
  pub deep_dive_count : ℤ
  pub debatable_count : ℤ
  pub total_count : ℤ

pub record Answer : Type 0 where
  pub user_reaction : Option ReactionType
  pub counts : ReactionCounts

-- The `$inc` of a first reaction, and of one taken away.
abbrev pub added : ReactionType → List (Metric × ℤ)
added t = (reactions t, pos 1) ∷ (total, pos 1) ∷ (likes, pos 1) ∷ []

abbrev pub removed : ReactionType → List (Metric × ℤ)
removed t = (reactions t, negsuc 0) ∷ (total, negsuc 0) ∷ (likes, negsuc 0) ∷ []

abbrev pub switched : ReactionType → ReactionType → List (Metric × ℤ)
switched old t = (reactions old, negsuc 0) ∷ (reactions t, pos 1) ∷ []

module _ {S : Type 0} (db : ReactionDb S) where
  -- `getReactionCounts`, of an article whose metrics are there.
  unfoldable pub get_reaction_counts : S → ℕ → ReactionCounts
  get_reaction_counts s n = record {
    appreciate_count = db.metric s n (reactions appreciate);
    insightful_count = db.metric s n (reactions insightful);
    bullish_count = db.metric s n (reactions bullish);
    risk_count = db.metric s n (reactions risk);
    deep_dive_count = db.metric s n (reactions deep_dive);
    debatable_count = db.metric s n (reactions debatable);
    total_count = db.metric s n total;
  }

  abbrev pub answer : Option ReactionType → ℕ → S → S × Answer
  answer user_reaction n s =
      (s, record { user_reaction = user_reaction; counts = get_reaction_counts s n })

  -- `toggleReaction` after its lookup; `found` is what that returned. The reward is given at
  -- once, though the code gives it in the background: no counter depends on it.
  unfoldable pub toggle_found : S → ℕ → ℕ → ReactionType → Option ReactionType → S × Answer
  unfolding get_reaction_counts
  toggle_found s u n t none =
      answer (some t) n (db.process_reward (db.inc (db.create s u n t) n (added t)) u t)
  toggle_found s u n t (some old) =
      if type_code old == type_code t
      then answer none n (db.inc (db.delete s u n).0 n (removed t))
      else answer (some t) n (db.inc (db.update_type s u n t) n (switched old t))

  -- `toggleReaction`; `meanwhile` is what other requests do between its lookup and its writes.
  unfoldable pub toggle_reaction : (S → S) → S → ℕ → ℕ → ReactionType → S × Answer
  unfolding toggle_found
  toggle_reaction meanwhile s u n t = toggle_found (meanwhile s) u n t (db.find s u n)

  unfoldable pub count_removed : S → ℕ → Option ReactionType → S
  count_removed s n none = s
  count_removed s n (some old) = db.inc s n (removed old)

  -- `removeReaction`.
  unfoldable pub remove_reaction : S → ℕ → ℕ → S × Answer
  unfolding count_removed get_reaction_counts
  remove_reaction s u n =
      let (s', existing) = db.delete s u n in answer none n (count_removed s' n existing)

  -- `getReactions`; without a user there is no reaction of the user.
  unfoldable pub get_reactions : S → ℕ → Option ℕ → Answer
  unfolding get_reaction_counts
  get_reactions s n none = record { user_reaction = none; counts = get_reaction_counts s n }
  get_reactions s n (some u) = record {
    user_reaction = db.find s u n;
    counts = get_reaction_counts s n;
  }
