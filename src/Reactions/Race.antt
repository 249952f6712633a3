-- ===== src/Reactions/Race.antt =====
-- Two requests of one user at once (src/modules/reaction/service.ts, `toggleReaction`).
use nayft_backend.Common.{ℕ, ◌≡◌, sym, ap, ◌∙◌, ◌≢◌, some, arith, ==_refl}
use nayft_backend.Common.Int.{ℤ, pos, ◌+ℤ◌}
use nayft_backend.Reactions.Database.{
  ReactionType, type_code, total, ReactionDb, IsReactionDb, delta,
}
use nayft_backend.Reactions.Service.{removed, toggle_reaction, remove_reaction}
use nayft_backend.Reactions.Counters.{IsConsistent, count_all, type_code-lt}
use nayft_backend.Reactions.Changes.{count_all-inc}
use nayft_backend.Reactions.Toggle.{remove_reaction-IsConsistent}

minus_one : (t : ReactionType) (c : ℕ) (x : ℤ) → x ≡ pos c → x +ℤ delta total (removed t) ≢ pos c
unfolding ◌+ℤ◌
minus_one t c x e = ground (arith, type_code-lt t)

module _ {S : Type 0} (db : ReactionDb S) (n : ℕ) (laws : IsReactionDb db n) where
  removed_twice :
      (s : S) (t : ReactionType)
      → IsConsistent db s n
      → ¬ IsConsistent db (db.inc s n (removed t)) n
  removed_twice s t h h' = minus_one t (count_all db s n) (db.metric s n total) h.all (
      sym (laws.metric-inc s (removed t) total)
      ∙ h'.all
      ∙ ap pos (count_all-inc db n laws s (removed t)))

  -- If the user's reaction is removed by another request after a toggle has read it, the toggle
  -- still takes it off the counters, and they no longer agree with the reactions.
  pub toggle_reaction_race :
      (s : S) (u : ℕ) (t : ReactionType)
      → IsConsistent db s n
      → db.find s u n ≡ some t
      → ¬ IsConsistent db (toggle_reaction db (λ x. (remove_reaction db x u n).0) s u n t).0 n
  unfolding toggle_reaction
  toggle_reaction_race s u t h e =
      let s' = (remove_reaction db s u n).0 in
      let (h', gone) = remove_reaction-IsConsistent db n laws s u h in
      rw (e, ==_refl (type_code t), laws.delete-miss s' u gone) (removed_twice s' t h')
