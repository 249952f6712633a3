-- ===== src/Reactions/Changes.antt =====
-- The writes of src/modules/reaction/service.ts and the counters of an article.
use nayft_backend.Common.{ℕ, ◌+◌, ◌≡◌, sym, ap, ◌∙◌, List, none, some, arith}
use nayft_backend.Common.Int.{ℤ, pos, ◌+ℤ◌}
use nayft_backend.Reactions.Database.{
  ReactionType, appreciate, insightful, bullish, risk, deep_dive, debatable, Metric, reactions,
  total, likes, ReactionDb, IsReactionDb, delta,
}
use nayft_backend.Reactions.Service.{added, removed, switched}
use nayft_backend.Reactions.Counters.{
  count_all, IsConsistent, add-added, add-removed, add-switched, overall_added, overall_removed,
  overall_switched, one_if_sum, overall_total, overall_likes,
}

module _ {S : Type 0} (db : ReactionDb S) (n : ℕ) (laws : IsReactionDb db n) where
  pub metric-step :
      (s s' : S) (ds : List (Metric × ℤ)) (m : Metric) (c a : ℕ)
      → db.metric s n m ≡ pos c
      → db.metric s' n m ≡ db.metric s n m
      → pos c +ℤ delta m ds ≡ pos a
      → db.metric (db.inc s' n ds) n m ≡ pos a
  metric-step s s' ds m c a old same step =
      laws.metric-inc s' ds m ∙ ap (λ x. x +ℤ delta m ds) (same ∙ old) ∙ step

  pub count_all-inc :
      (s : S) (ds : List (Metric × ℤ)) → count_all db (db.inc s n ds) n ≡ count_all db s n
  count_all-inc s ds = omega (
    arith,
    laws.count-inc s ds appreciate,
    laws.count-inc s ds insightful,
    laws.count-inc s ds bullish,
    laws.count-inc s ds risk,
    laws.count-inc s ds deep_dive,
    laws.count-inc s ds debatable,
  )

  -- A change of the reactions and of the counters that fit each other keeps the article consistent.
  pub inc-IsConsistent :
      (s s' : S) (ds : List (Metric × ℤ))
      → IsConsistent db s n
      → ((m : Metric) → db.metric s' n m ≡ db.metric s n m)
      → ((k : ReactionType)
          → pos (db.count_by_target s n k) +ℤ delta (reactions k) ds
            ≡ pos (db.count_by_target s' n k))
      → pos (count_all db s n) +ℤ delta total ds ≡ pos (count_all db s' n)
      → pos (count_all db s n) +ℤ delta likes ds ≡ pos (count_all db s' n)
      → IsConsistent db (db.inc s' n ds) n
  inc-IsConsistent s s' ds h same each all liked = record {
    each = λ k.
        metric-step s s' ds (reactions k) (db.count_by_target s n k) (db.count_by_target s' n k)
          (h.each k) (same (reactions k)) (each k)
        ∙ ap pos (sym (laws.count-inc s' ds k));
    all =
        metric-step s s' ds total (count_all db s n) (count_all db s' n) h.all (same total) all
        ∙ ap pos (sym (count_all-inc s' ds));
    liked =
        metric-step s s' ds likes (count_all db s n) (count_all db s' n) h.liked (same likes) liked
        ∙ ap pos (sym (count_all-inc s' ds));
  }

  pub count_all-create :
      (s : S) (u : ℕ) (t : ReactionType)
      → db.find s u n ≡ none
      → count_all db (db.create s u n t) n ≡ count_all db s n + 1
  count_all-create s u t e = omega (
    arith,
    one_if_sum t,
    laws.count-create s u t appreciate e,
    laws.count-create s u t insightful e,
    laws.count-create s u t bullish e,
    laws.count-create s u t risk e,
    laws.count-create s u t deep_dive e,
    laws.count-create s u t debatable e,
  )

  pub count_all-delete :
      (s : S) (u : ℕ) (old : ReactionType)
      → db.find s u n ≡ some old
      → count_all db s n ≡ count_all db (db.delete s u n).0 n + 1
  count_all-delete s u old e = omega (
    arith,
    one_if_sum old,
    laws.count-delete s u old appreciate e,
    laws.count-delete s u old insightful e,
    laws.count-delete s u old bullish e,
    laws.count-delete s u old risk e,
    laws.count-delete s u old deep_dive e,
    laws.count-delete s u old debatable e,
  )

  pub count_all-update_type :
      (s : S) (u : ℕ) (t old : ReactionType)
      → db.find s u n ≡ some old
      → count_all db (db.update_type s u n t) n ≡ count_all db s n
  count_all-update_type s u t old e = omega (
    arith,
    one_if_sum old,
    one_if_sum t,
    laws.count-update_type s u t old appreciate e,
    laws.count-update_type s u t old insightful e,
    laws.count-update_type s u t old bullish e,
    laws.count-update_type s u t old risk e,
    laws.count-update_type s u t old deep_dive e,
    laws.count-update_type s u t old debatable e,
  )

  pub process_reward-IsConsistent :
      (s : S) (u : ℕ) (t : ReactionType)
      → IsConsistent db s n
      → IsConsistent db (db.process_reward s u t) n
  process_reward-IsConsistent s u t h =
      let counted : count_all db (db.process_reward s u t) n ≡ count_all db s n = omega (
        arith,
        laws.count-process_reward s u t appreciate,
        laws.count-process_reward s u t insightful,
        laws.count-process_reward s u t bullish,
        laws.count-process_reward s u t risk,
        laws.count-process_reward s u t deep_dive,
        laws.count-process_reward s u t debatable,
      ) in
      record {
        each = λ k.
            laws.metric-process_reward s u t (reactions k)
            ∙ h.each k
            ∙ ap pos (sym (laws.count-process_reward s u t k));
        all = laws.metric-process_reward s u t total ∙ h.all ∙ ap pos (sym counted);
        liked = laws.metric-process_reward s u t likes ∙ h.liked ∙ ap pos (sym counted);
      }

  pub create-IsConsistent :
      (s : S) (u : ℕ) (t : ReactionType)
      → IsConsistent db s n
      → db.find s u n ≡ none
      → IsConsistent db (db.inc (db.create s u n t) n (added t)) n
  create-IsConsistent s u t h e =
      let a = count_all db s n in
      let more = count_all-create s u t e in
      inc-IsConsistent s (db.create s u n t) (added t) h (laws.metric-create s u t)
        (λ k.
          add-added t k (db.count_by_target s n k) (db.count_by_target (db.create s u n t) n k)
            (sym (laws.count-create s u t k e)))
        (rw more (overall_added t a overall_total)) (rw more (overall_added t a overall_likes))

  pub delete-IsConsistent :
      (s : S) (u : ℕ) (old : ReactionType)
      → IsConsistent db s n
      → db.find s u n ≡ some old
      → IsConsistent db (db.inc (db.delete s u n).0 n (removed old)) n
  delete-IsConsistent s u old h e =
      let s' = (db.delete s u n).0 in
      let a = count_all db s' n in
      let fewer = count_all-delete s u old e in
      inc-IsConsistent s s' (removed old) h (laws.metric-delete s u)
        (λ k.
          add-removed old k (db.count_by_target s n k) (db.count_by_target s' n k)
            (laws.count-delete s u old k e))
        (rw fewer (overall_removed old a overall_total))
        (rw fewer (overall_removed old a overall_likes))

  pub update_type-IsConsistent :
      (s : S) (u : ℕ) (t old : ReactionType)
      → IsConsistent db s n
      → db.find s u n ≡ some old
      → IsConsistent db (db.inc (db.update_type s u n t) n (switched old t)) n
  update_type-IsConsistent s u t old h e =
      let s' = db.update_type s u n t in
      let a = count_all db s n in
      let same = count_all-update_type s u t old e in
      inc-IsConsistent s s' (switched old t) h (laws.metric-update_type s u t)
        (λ k.
          add-switched old t k (db.count_by_target s n k) (db.count_by_target s' n k)
            (laws.count-update_type s u t old k e))
        (rw same (overall_switched old t a overall_total))
        (rw same (overall_switched old t a overall_likes))
