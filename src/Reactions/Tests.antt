-- ===== src/Reactions/Tests.antt =====
-- One article's reactions as a list of slots, a slot for each user, and instances of the theorems on
-- src/modules/reaction/service.ts.
use nayft_backend.Common.{
  ℕ, zero, suc, ◌+◌, ◌≡◌, refl, sym, List, [], ◌∷◌, Option, none, some, arith,
}
use nayft_backend.Common.Int.{ℤ, pos, ◌+ℤ◌}
use nayft_backend.Reactions.Database.{
  ReactionType, appreciate, insightful, bullish, risk, deep_dive, debatable, Metric, reactions,
  total, likes, ReactionDb, IsReactionDb, delta, one_if,
}
use nayft_backend.Reactions.Service.{toggle_reaction, remove_reaction}
use nayft_backend.Reactions.Counters.{IsConsistent}
use nayft_backend.Reactions.Toggle.{toggle_reaction-IsConsistent, remove_reaction-IsConsistent}
use nayft_backend.Reactions.Race.{toggle_reaction_race}

abbrev Slots : Type 0
Slots = List (Option ReactionType)

abbrev slot : Slots → ℕ → Option ReactionType
slot [] u = none
slot (x ∷ l) zero = x
slot (x ∷ l) (suc u) = slot l u

abbrev fill : Slots → ℕ → Option ReactionType → Slots
fill [] zero y = y ∷ []
fill [] (suc u) y = none ∷ fill [] u y
fill (x ∷ l) zero y = y ∷ l
fill (x ∷ l) (suc u) y = x ∷ fill l u y

abbrev one_of : ReactionType → Option ReactionType → ℕ
one_of k none = 0
one_of k (some t) = one_if t k

abbrev count : ReactionType → Slots → ℕ
count k [] = 0
count k (x ∷ l) = one_of k x + count k l

slot-fill : (l : Slots) (u : ℕ) (y : Option ReactionType) → slot (fill l u y) u ≡ y
slot-fill [] zero y = refl
slot-fill [] (suc u) y = slot-fill [] u y
slot-fill (x ∷ l) zero y = refl
slot-fill (x ∷ l) (suc u) y = slot-fill l u y

count-fill :
    (k : ReactionType) (l : Slots) (u : ℕ) (y : Option ReactionType)
    → count k (fill l u y) + one_of k (slot l u) ≡ count k l + one_of k y
count-fill k [] zero y = omega arith
count-fill k [] (suc u) y = omega (arith, count-fill k [] u y)
count-fill k (x ∷ l) zero y = omega arith
count-fill k (x ∷ l) (suc u) y = omega (arith, count-fill k l u y)

record Store : Type 0 where
  slots : Slots
  fields : Metric → ℤ
  points : ℕ

abbrev take_out : Store → ℕ → Option ReactionType → Store × Option ReactionType
take_out s u none = (s, none)
take_out s u (some t) = (record s { slots = fill s.slots u none }, some t)

abbrev store : ReactionDb Store
store = record {
  find = λ s u n. slot s.slots u;
  create = λ s u n t. record s { slots = fill s.slots u (some t) };
  update_type = λ s u n t. record s { slots = fill s.slots u (some t) };
  delete = λ s u n. take_out s u (slot s.slots u);
  count_by_target = λ s n k. count k s.slots;
  inc = λ s n ds. record s { fields = λ m. s.fields m +ℤ delta m ds };
  metric = λ s n m. s.fields m;
  process_reward = λ s u t. record s { points = s.points + 1 };
}

count-set :
    (k : ReactionType) (l : Slots) (u : ℕ) (y old : Option ReactionType)
    → slot l u ≡ old
    → count k (fill l u y) + one_of k old ≡ count k l + one_of k y
count-set k l u y old e = rw (sym e) (count-fill k l u y)

slots-take_out :
    (s : Store) (u : ℕ) (found : Option ReactionType)
    → slot s.slots u ≡ found
    → slot (take_out s u found).0.slots u ≡ none
slots-take_out s u none e = e
slots-take_out s u (some t) e = slot-fill s.slots u none

fields-take_out :
    (s : Store) (u : ℕ) (found : Option ReactionType) (m : Metric)
    → (take_out s u found).0.fields m ≡ s.fields m
fields-take_out s u none m = refl
fields-take_out s u (some t) m = refl

store-IsReactionDb : (n : ℕ) → IsReactionDb store n
store-IsReactionDb n = record {
  find-create = λ s u t. slot-fill s.slots u (some t);
  count-create = λ s u t k e. omega (arith, count-set k s.slots u (some t) none e);
  metric-create = λ s u t m. refl;
  find-update_type = λ s u t old e. slot-fill s.slots u (some t);
  count-update_type = λ s u t old k e. count-set k s.slots u (some t) (some old) e;
  metric-update_type = λ s u t m. refl;
  delete-miss = λ s u e. rw e refl;
  delete-hit = λ s u old e. rw e refl;
  find-delete = λ s u. slots-take_out s u (slot s.slots u) refl;
  count-delete = λ s u old k e. rw e (omega (arith, count-set k s.slots u none (some old) e));
  metric-delete = λ s u m. fields-take_out s u (slot s.slots u) m;
  metric-inc = λ s ds m. refl;
  find-inc = λ s ds u. refl;
  count-inc = λ s ds k. refl;
  metric-process_reward = λ s u t m. refl;
  find-process_reward = λ s u v t. refl;
  count-process_reward = λ s u t k. refl;
}

-- User 0 finds the article insightful, user 2 bullish.
abbrev two_fields : Metric → ℤ
two_fields (reactions appreciate) = pos 0
two_fields (reactions insightful) = pos 1
two_fields (reactions bullish) = pos 1
two_fields (reactions risk) = pos 0
two_fields (reactions deep_dive) = pos 0
two_fields (reactions debatable) = pos 0
two_fields total = pos 2
two_fields likes = pos 2

abbrev two_slots : Store
two_slots = record {
  slots = some insightful ∷ none ∷ some bullish ∷ [];
  fields = two_fields;
  points = 0;
}

each_two_slots : (k : ReactionType) → two_fields (reactions k) ≡ pos (count k two_slots.slots)
each_two_slots appreciate = refl
each_two_slots insightful = refl
each_two_slots bullish = refl
each_two_slots risk = refl
each_two_slots deep_dive = refl
each_two_slots debatable = refl

two_slots-IsConsistent : IsConsistent store two_slots 7
two_slots-IsConsistent = record { each = each_two_slots; all = refl; liked = refl }

switched_test :
    (toggle_reaction store (λ x. x) two_slots 0 7 risk).0.slots
    ≡ some risk ∷ none ∷ some bullish ∷ []
unfolding toggle_reaction
switched_test = refl

toggle_reaction-IsConsistent_example :
    let (s', a) = toggle_reaction store (λ x. x) two_slots 0 7 insightful in
    IsConsistent store s' 7 × (store.find s' 0 7 ≡ a.user_reaction)
toggle_reaction-IsConsistent_example =
    toggle_reaction-IsConsistent store 7 (store-IsReactionDb 7) two_slots 0 insightful
      two_slots-IsConsistent

remove_reaction-IsConsistent_example :
    let s' = (remove_reaction store two_slots 2 7).0 in
    IsConsistent store s' 7 × (store.find s' 2 7 ≡ none)
remove_reaction-IsConsistent_example =
    remove_reaction-IsConsistent store 7 (store-IsReactionDb 7) two_slots 2 two_slots-IsConsistent

toggle_reaction_race_example :
    ¬ IsConsistent store
      (toggle_reaction store (λ x. (remove_reaction store x 2 7).0) two_slots 2 7 bullish).0
      7
toggle_reaction_race_example =
    toggle_reaction_race store 7 (store-IsReactionDb 7) two_slots 2 bullish two_slots-IsConsistent
      refl
