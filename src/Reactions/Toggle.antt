-- ===== src/Reactions/Toggle.antt =====
-- What toggling and removing a reaction do (src/modules/reaction/service.ts).
use nayft_backend.Common.{
  ℕ, ◌≡◌, ap, ◌∙◌, true, ◌==◌, none, some, arith, inl, inr, Bool-cases, Option-cases,
}
use nayft_backend.Reactions.Database.{ReactionType, type_code, ReactionDb, IsReactionDb}
use nayft_backend.Reactions.Service.{added, removed, switched, toggle_reaction, remove_reaction}
use nayft_backend.Reactions.Counters.{IsConsistent}
use nayft_backend.Reactions.Changes.{
  process_reward-IsConsistent, create-IsConsistent, delete-IsConsistent, update_type-IsConsistent,
}

pub same_type : (a b : ReactionType) → (type_code a == type_code b) ≡ true → a ≡ b
same_type a b e = ground arith

module _ {S : Type 0} (db : ReactionDb S) (n : ℕ) (laws : IsReactionDb db n) where
  -- A toggle that no other request interrupts keeps every counter of the article equal to the number
  -- of reactions that it stands for, and answers with the reaction that the user has afterwards.
  pub toggle_reaction-IsConsistent :
      (s : S) (u : ℕ) (t : ReactionType)
      → IsConsistent db s n
      → let (s', a) = toggle_reaction db (λ x. x) s u n t in
        IsConsistent db s' n × (db.find s' u n ≡ a.user_reaction)
  unfolding toggle_reaction
  toggle_reaction-IsConsistent s u t h = elim (Option-cases (db.find s u n)) [
    | inl e ↦ rw e (
      process_reward-IsConsistent db n laws (db.inc (db.create s u n t) n (added t)) u t
          (create-IsConsistent db n laws s u t h e),
      laws.find-process_reward (db.inc (db.create s u n t) n (added t)) u u t
          ∙ laws.find-inc (db.create s u n t) (added t) u
          ∙ laws.find-create s u t,
    )
    | inr (old, e) ↦ rw e (elim (Bool-cases (type_code old == type_code t)) [
      | inl same ↦
          let mine = e ∙ ap some (same_type old t same) in
          rw same (
            delete-IsConsistent db n laws s u t h mine,
            laws.find-inc (db.delete s u n).0 (removed t) u ∙ laws.find-delete s u,
          )
      | inr other ↦ rw other (
        update_type-IsConsistent db n laws s u t old h e,
        laws.find-inc (db.update_type s u n t) (switched old t) u
            ∙ laws.find-update_type s u t old e,
      )
    ])
  ]

  -- Removing a reaction keeps the counters right and leaves the user with none, also if there was
  -- none to remove.
  pub remove_reaction-IsConsistent :
      (s : S) (u : ℕ)
      → IsConsistent db s n
      → let s' = (remove_reaction db s u n).0 in IsConsistent db s' n × (db.find s' u n ≡ none)
  unfolding remove_reaction
  remove_reaction-IsConsistent s u h = elim (Option-cases (db.find s u n)) [
    | inl e ↦ rw (laws.delete-miss s u e) (h, e)
    | inr (old, e) ↦ rw (laws.delete-hit s u old e) (
      delete-IsConsistent db n laws s u old h e,
      laws.find-inc (db.delete s u n).0 (removed old) u ∙ laws.find-delete s u,
    )
  ]
