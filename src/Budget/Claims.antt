-- ===== src/Budget/Claims.antt =====
-- `claimAlchemyRpcBudget` of src/services/alchemyRpcBudget.ts, over a Redis that has one counter for a
-- day. Times are in milliseconds; a day is its number, and stands for its key.
use nayft_backend.Common.{
  ℕ, suc, ◌+◌, ◌-◌, ◌*◌, ◌/◌, ◌<◌, ◌≤◌, ◌≡◌, max, ◌==◌, leb, Bool, true, false, if◌then◌else◌,
  Option, none, some, List, [], ◌∷◌, ◌&&◌, ◌⊎◌,
}

-- Redis and the clock, with their state. `incr` and `expire` may throw, which is `none` and `false`;
-- `later` lets time pass.
pub record Redis (S : Type 0) : Type 0 where
  pub now : S → ℕ
  pub value : S → ℕ → ℕ
  pub deadline : S → ℕ → Option ℕ
  pub incr : S → ℕ → S × Option ℕ
  pub expire : S → ℕ → ℕ → S × Bool
  pub later : ℕ → S → S

-- What the documentation of Redis says of them; a counter only goes back to nothing at its deadline.
pub record IsRedis {S : Type 0} (r : Redis S) : Type 0 where
  pub incr_now : (s : S) (k : ℕ) → r.now (r.incr s k).0 ≡ r.now s
  pub incr_result :
      (s : S) (k n : ℕ)
      → (r.incr s k).1 ≡ some n
      → (n ≡ suc (r.value s k)) × (r.value (r.incr s k).0 k ≡ n)
  pub incr_value : (s : S) (k j : ℕ) → r.value s j ≤ r.value (r.incr s k).0 j
  pub incr_deadline : (s : S) (k j : ℕ) → r.deadline (r.incr s k).0 j ≡ r.deadline s j
  pub expire_now : (s : S) (k secs : ℕ) → r.now (r.expire s k secs).0 ≡ r.now s
  pub expire_value : (s : S) (k secs j : ℕ) → r.value (r.expire s k secs).0 j ≡ r.value s j
  pub expire_deadline :
      (s : S) (k secs j t : ℕ)
      → r.deadline (r.expire s k secs).0 j ≡ some t
      → (r.deadline s j ≡ some t) ⊎ ((j ≡ k) × (t ≡ r.now s + secs * 1000))
  pub later_now : (n : ℕ) (s : S) → r.now (r.later n s) ≡ r.now s + n
  pub later_value :
      (n : ℕ) (s : S) (j : ℕ)
      → ((t : ℕ) → r.deadline s j ≡ some t → r.now s + n < t)
      → r.value s j ≤ r.value (r.later n s) j
  pub later_deadline :
      (n : ℕ) (s : S) (j t : ℕ) → r.deadline (r.later n s) j ≡ some t → r.deadline s j ≡ some t

abbrev pub day_ms : ℕ
day_ms = 86400000

-- `getUtcDayString`.
abbrev pub get_utc_day : ℕ → ℕ
get_utc_day now = now / 86400000

-- `getSecondsUntilNextUtcMidnight`.
unfoldable pub get_seconds_until_next_utc_midnight : ℕ → ℕ
get_seconds_until_next_utc_midnight now =
    max 1 (((get_utc_day now + 1) * 86400000 - now + 999) / 1000)

pub data Reason : Type 0 where
  disabled within_budget over_budget redis_unavailable : Reason

pub record Decision : Type 0 where
  pub allowed : Bool
  pub reason : Reason
  pub day : ℕ
  pub count : Option ℕ
  pub limit : ℕ

-- Claims, and time that passes between them.
pub data Step : Type 0 where
  claim : Step
  wait : ℕ → Step

module _ {S : Type 0} (r : Redis S) (is_enabled : Bool) (limit : ℕ) where
  abbrev pub decided : ℕ → ℕ → Decision
  decided day count = record {
    allowed = leb count limit;
    reason = if leb count limit then within_budget else over_budget;
    day = day;
    count = some count;
    limit = limit;
  }

  abbrev pub unavailable : ℕ → Decision
  unavailable day = record {
    allowed = false;
    reason = redis_unavailable;
    day = day;
    count = none;
    limit = limit;
  }

  abbrev pub after_expire : ℕ → ℕ → S × Bool → S × Decision
  after_expire day count (s, true) = (s, decided day count)
  after_expire day count (s, false) = (s, unavailable day)

  -- The answer of `incr`, and the deadline of a counter that is new.
  abbrev pub after_incr : ℕ → ℕ → S → Option ℕ → S × Decision
  after_incr now day s none = (s, unavailable day)
  after_incr now day s (some count) =
      if count == 1
      then after_expire day count (r.expire s day (get_seconds_until_next_utc_midnight now))
      else (s, decided day count)

  unfoldable pub claim_alchemy_rpc_budget : S → S × Decision
  claim_alchemy_rpc_budget s =
      let now = r.now s in
      let day = get_utc_day now in
      let (s', count) = r.incr s day in
      if is_enabled
      then after_incr now day s' count
      else (s, record { allowed = true; reason = disabled; day = day; count = none; limit = limit })

  -- How many claims of a day are allowed.
  unfoldable pub allowed_on : ℕ → List Step → S → ℕ
  unfolding claim_alchemy_rpc_budget
  allowed_on day [] s = 0
  allowed_on day (claim ∷ steps) s =
      let (s', d) = claim_alchemy_rpc_budget s in
      (if d.allowed && (d.day == day) then 1 else 0) + allowed_on day steps s'
  allowed_on day (wait n ∷ steps) s = allowed_on day steps (r.later n s)
