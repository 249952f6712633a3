-- ===== src/Budget/Bound.antt =====
-- The claims of src/services/alchemyRpcBudget.ts on one day.
use nayft_backend.Common.{
  ℕ, suc, ◌+◌, ◌-◌, ◌*◌, ◌/◌, ◌<◌, ◌≤◌, ◌≡◌, ◌==◌, leb, refl, sym, ◌∙◌, Bool, true, false,
  if◌then◌else◌, Option, none, some, List, [], ◌∷◌, ◌&&◌, ◌⊎◌, inl, inr, arith, Bool-cases,
  by_branches, ==_iff,
}
use nayft_backend.Budget.Claims.{
  Redis, IsRedis, get_seconds_until_next_utc_midnight, Decision, decided, after_expire, after_incr,
  claim_alchemy_rpc_budget, Step, claim, wait, allowed_on,
}

-- The counter of a day lasts until the next one.
midnight :
    (now : ℕ)
    → (now / 86400000 + 1) * 86400000 ≤ now + get_seconds_until_next_utc_midnight now * 1000
unfolding get_seconds_until_next_utc_midnight
midnight now = omega arith

day_of : (now d : ℕ) → d * 86400000 ≤ now → now < (d + 1) * 86400000 → now / 86400000 ≡ d
day_of now d low high = omega arith

before_midnight : (now : ℕ) → now < (now / 86400000 + 1) * 86400000
before_midnight now = omega arith

le_or_lt : (a b : ℕ) → (a ≤ b) ⊎ (b < a)
le_or_lt a b = elim (Bool-cases (leb a b)) [
  | inl e ↦ inl (ground (arith, e))
  | inr e ↦ inr (ground (arith, e))
]

at_day : (x d : ℕ) (P : ℕ → Type 0) → x ≡ d → P x → P d
at_day x d P e p = rw (sym e) p

spent :
    (allowed same : Bool) (rest v v' limit : ℕ)
    → rest ≤ limit - v'
    → v ≤ v'
    → (allowed ≡ true → same ≡ true → (suc v ≤ v') × (suc v ≤ limit))
    → (if allowed && same then 1 else 0) + rest ≤ limit - v
spent true true rest v v' limit h k f = let (x, y) = f refl refl in omega (arith, h, x, y)
spent true false rest v v' limit h k f = omega (arith, h, k)
spent false same rest v v' limit h k f = omega (arith, h, k)

module _ {S : Type 0} (r : Redis S) (laws : IsRedis r) (limit : ℕ) where
  -- The counter of a day has no deadline before the day is over.
  abbrev pub IsLate : ℕ → S → Type 0
  IsLate d s = (t : ℕ) → r.deadline s d ≡ some t → (d + 1) * 86400000 ≤ t

  record IsCharged (s : S) (c : S × Decision) : Type 0 where
    same_now : r.now c.0 ≡ r.now s
    grows : (j : ℕ) → r.value s j ≤ r.value c.0 j
    late : (d : ℕ) → IsLate d s → IsLate d c.0
    same_day : c.1.day ≡ r.now s / 86400000
    counted :
        c.1.allowed ≡ true
        → (suc (r.value s c.1.day) ≤ r.value c.0 c.1.day) × (suc (r.value s c.1.day) ≤ limit)

  incr-IsLate : (s : S) (k d : ℕ) → IsLate d s → IsLate d (r.incr s k).0
  incr-IsLate s k d h t e = h t (sym (laws.incr_deadline s k d) ∙ e)

  record IsKept (s : S) (n : ℕ) (s' : S) : Type 0 where
    kept_now : r.now s' ≡ r.now s
    kept_values : (j : ℕ) → r.value s j ≤ r.value s' j
    kept_late : (d : ℕ) → IsLate d s → IsLate d s'
    is_next : n ≡ suc (r.value s (r.now s / 86400000))
    is_new : r.value s' (r.now s / 86400000) ≡ n

  after_expire-IsCharged :
      (s : S) (n : ℕ) (x : S × Bool)
      → IsKept s n x.0
      → IsCharged s (after_expire r true limit (r.now s / 86400000) n x)
  after_expire-IsCharged s n (s', true) k = record {
    same_now = k.kept_now;
    grows = k.kept_values;
    late = k.kept_late;
    same_day = refl;
    counted = λ ok. (omega (arith, k.is_next, k.is_new), ground (arith, ok, k.is_next));
  }
  after_expire-IsCharged s n (s', false) k = record {
    same_now = k.kept_now;
    grows = k.kept_values;
    late = k.kept_late;
    same_day = refl;
    counted = λ ok. ground (arith, ok);
  }

  expire-IsKept :
      (s : S) (n : ℕ)
      → (r.incr s (r.now s / 86400000)).1 ≡ some n
      → IsKept s n
          (r.expire
            (r.incr s (r.now s / 86400000)).0
            (r.now s / 86400000)
            (get_seconds_until_next_utc_midnight (r.now s))).0
  expire-IsKept s n e =
      let day = r.now s / 86400000 in
      let s1 = (r.incr s day).0 in
      let secs = get_seconds_until_next_utc_midnight (r.now s) in
      let (result, new) = laws.incr_result s day n e in
      record {
        kept_now = laws.expire_now s1 day secs ∙ laws.incr_now s day;
        kept_values = λ j. omega (arith, laws.incr_value s day j, laws.expire_value s1 day secs j);
        kept_late = λ d h t u. elim (laws.expire_deadline s1 day secs d t u) [
          | inl old ↦ incr-IsLate s day d h t old
          | inr (same, until) ↦ omega (arith, midnight (r.now s), same, until, laws.incr_now s day)
        ];
        is_next = result;
        is_new = laws.expire_value s1 day secs day ∙ new;
      }

  decided-IsCharged :
      (s : S) (n : ℕ)
      → let day = r.now s / 86400000 in
        (r.incr s day).1 ≡ some n → IsCharged s ((r.incr s day).0, decided r true limit day n)
  decided-IsCharged s n e =
      let day = r.now s / 86400000 in
      let (result, new) = laws.incr_result s day n e in
      record {
        same_now = laws.incr_now s day;
        grows = laws.incr_value s day;
        late = incr-IsLate s day;
        same_day = refl;
        counted = λ ok. (omega (arith, result, new), ground (arith, ok, result));
      }

  incr-IsCharged :
      (s : S) (o : Option ℕ)
      → (r.incr s (r.now s / 86400000)).1 ≡ o
      → IsCharged s (
          after_incr r true limit
            (r.now s)
            (r.now s / 86400000)
            (r.incr s (r.now s / 86400000)).0
            o)
  incr-IsCharged s none e = record {
    same_now = laws.incr_now s (r.now s / 86400000);
    grows = laws.incr_value s (r.now s / 86400000);
    late = incr-IsLate s (r.now s / 86400000);
    same_day = refl;
    counted = λ ok. ground (arith, ok);
  }
  incr-IsCharged s (some n) e =
      by_branches (IsCharged s) (n == 1) (after_expire-IsCharged s n _ (expire-IsKept s n e))
        (decided-IsCharged s n e)

  claim-IsCharged : (s : S) → IsCharged s (claim_alchemy_rpc_budget r true limit s)
  unfolding claim_alchemy_rpc_budget
  claim-IsCharged s = incr-IsCharged s (r.incr s (r.now s / 86400000)).1 refl

  -- A day that is over allows nothing any more.
  allowed_after :
      (d : ℕ) (steps : List Step) (s : S)
      → (d + 1) * 86400000 ≤ r.now s
      → allowed_on r true limit d steps s ≡ 0
  unfolding allowed_on
  allowed_after d [] s over = refl
  allowed_after d (claim ∷ steps) s over =
      let c = claim-IsCharged s in
      let rest =
        allowed_after d steps (claim_alchemy_rpc_budget r true limit s).0
          (omega (arith, over, c.same_now)) in
      ground (arith, rest, c.same_day, day_of (r.now s) d, before_midnight (r.now s))
  allowed_after d (wait n ∷ steps) s over =
      allowed_after d steps (r.later n s) (omega (arith, over, laws.later_now n s))

  -- What is left of the budget of a day, whatever has been claimed on it.
  allowed_left :
      (d : ℕ) (steps : List Step) (s : S)
      → IsLate d s
      → allowed_on r true limit d steps s ≤ limit - r.value s d
  unfolding allowed_on
  allowed_left d [] s h = omega arith
  allowed_left d (claim ∷ steps) s h =
      let c = claim-IsCharged s in
      let (s', decision) = claim_alchemy_rpc_budget r true limit s in
      spent decision.allowed (decision.day == d) (allowed_on r true limit d steps s') (r.value s d)
        (r.value s' d) limit (allowed_left d steps s' (c.late d h)) (c.grows d)
        (λ ok same.
          at_day decision.day d
            (λ x. (suc (r.value s x) ≤ r.value s' x) × (suc (r.value s x) ≤ limit))
            ((==_iff decision.day d).0 same) (c.counted ok))
  allowed_left d (wait n ∷ steps) s h = elim (le_or_lt ((d + 1) * 86400000) (r.now s + n)) [
    | inl over ↦
        omega (arith, allowed_after d steps (r.later n s) (omega (arith, over, laws.later_now n s)))
    | inr early ↦ omega (
      arith,
      allowed_left d steps (r.later n s) (λ t e. h t (laws.later_deadline n s d t e)),
      laws.later_value n s d (λ t e. omega (arith, early, h t e)),
    )
  ]

  -- The budget is on. Whatever time passes between any number of claims, and wherever Redis fails, a
  -- day whose counter has no deadline before the day is over allows at most as many claims as the
  -- budget says, less those that are counted already, and an earlier day allows none.
  pub allowed_on-le :
      (d : ℕ) (steps : List Step) (s : S)
      → IsLate d s
      → (allowed_on r true limit d steps s ≤ limit - r.value s d)
        × ((d + 1) * 86400000 ≤ r.now s → allowed_on r true limit d steps s ≡ 0)
  allowed_on-le d steps s h = (allowed_left d steps s h, allowed_after d steps s)
