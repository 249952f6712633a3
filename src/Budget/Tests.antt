-- ===== src/Budget/Tests.antt =====
-- A concrete Redis for src/services/alchemyRpcBudget.ts, and a day with more claims than its budget.
use nayft_backend.Common.{
  ℕ, suc, ◌+◌, ◌*◌, ◌<◌, ◌≤◌, ◌≡◌, ◌==◌, leb, refl, sym, ap, Bool, true, false, if◌then◌else◌,
  Option, none, some, List, [], ◌∷◌, ◌⊎◌, inl, inr, arith, Bool-cases, ==_iff,
}
use nayft_backend.Budget.Claims.{
  Redis, IsRedis, get_seconds_until_next_utc_midnight, claim_alchemy_rpc_budget, Step, claim, wait,
  allowed_on,
}
use nayft_backend.Budget.Bound.{allowed_on-le}

record Store : Type 0 where
  time : ℕ
  counts : ℕ → ℕ
  due : ℕ → Option ℕ

abbrev is_due : ℕ → Option ℕ → Bool
is_due now none = false
is_due now (some t) = leb t now

abbrev drop_due : ℕ → Option ℕ → Option ℕ
drop_due now none = none
drop_due now (some t) = if leb t now then none else some t

abbrev redis : Redis Store
redis = record {
  now = λ s. s.time;
  value = λ s k. s.counts k;
  deadline = λ s k. s.due k;
  incr = λ s k. (
    record s { counts = λ j. if j == k then suc (s.counts k) else s.counts j },
    some (suc (s.counts k)),
  );
  expire = λ s k secs.
      (record s { due = λ j. if j == k then some (s.time + secs * 1000) else s.due j }, true);
  later = λ n s. record {
    time = s.time + n;
    counts = λ j. if is_due (s.time + n) (s.due j) then 0 else s.counts j;
    due = λ j. drop_due (s.time + n) (s.due j);
  };
}

abbrev number : Option ℕ → ℕ
number none = 0
number (some n) = n

kept :
    (now v : ℕ) (o : Option ℕ)
    → ((t : ℕ) → o ≡ some t → now < t)
    → v ≤ (if is_due now o then 0 else v)
kept now v none h = omega arith
kept now v (some t) h = ground (arith, h t refl)

was_due : (now t : ℕ) (o : Option ℕ) → drop_due now o ≡ some t → o ≡ some t
was_due now t none e = e
was_due now t (some u) e = elim (Bool-cases (leb u now)) [
  | inl gone ↦ ground (arith, rw gone at e)
  | inr stays ↦ rw stays at e
]

set_due :
    (j k u t : ℕ) (o : Option ℕ)
    → (if j == k then some u else o) ≡ some t
    → (o ≡ some t) ⊎ ((j ≡ k) × (t ≡ u))
set_due j k u t o e = elim (Bool-cases (j == k)) [
  | inl same ↦ inr ((==_iff j k).0 same, sym (ap number (rw same at e)))
  | inr other ↦ inl (rw other at e)
]

redis-IsRedis : IsRedis redis
redis-IsRedis = record {
  incr_now = λ s k. refl;
  incr_result = λ s k n e. (ground (arith, ap number e), ground (arith, ap number e));
  incr_value = λ s k j. ground (arith, (==_iff j k).0);
  incr_deadline = λ s k j. refl;
  expire_now = λ s k secs. refl;
  expire_value = λ s k secs j. refl;
  expire_deadline = λ s k secs j t e. set_due j k (s.time + secs * 1000) t (s.due j) e;
  later_now = λ n s. refl;
  later_value = λ n s j h. kept (s.time + n) (s.counts j) (s.due j) h;
  later_deadline = λ n s j t e. was_due (s.time + n) t (s.due j) e;
}

-- The last hour of the first day and the first of the next one.
abbrev evening : Store
evening = record { time = 82800000; counts = λ k. 0; due = λ k. none }

abbrev calls : List Step
calls = claim ∷ wait 1000 ∷ claim ∷ claim ∷ wait 3600000 ∷ claim ∷ []

allowed_on-le_example :
    (allowed_on redis true 2 0 calls evening ≤ 2)
    × (86400000 ≤ 82800000 → allowed_on redis true 2 0 calls evening ≡ 0)
allowed_on-le_example = allowed_on-le redis redis-IsRedis 2 0 calls evening (λ t e. ground arith)

two_then_one :
    (allowed_on redis true 2 0 calls evening ≡ 2) × (allowed_on redis true 2 1 calls evening ≡ 1)
unfolding allowed_on claim_alchemy_rpc_budget get_seconds_until_next_utc_midnight
two_then_one = (refl, refl)
