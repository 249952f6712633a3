-- ===== src/Auth/RateLimit.antt =====
-- src/modules/auth/verification/verificationRateLimit.ts.
use Prim.Native.String.{String}
use nayft_backend.Common.{
  ℕ, ◌/◌, ◌-◌, ◌==◌, leb, Bool, true, false, if◌then◌else◌, Option, none, some,
}
use nayft_backend.Auth.Backend.{
  Key, cooldown_key, hour_key, day_key, ip_key, attempts_key, locked_key, number, Entry, Backend,
  number_of,
}

abbrev pub cooldown_seconds : ℕ
cooldown_seconds = 60

abbrev pub max_resends_per_hour : ℕ
max_resends_per_hour = 3

abbrev pub max_resends_per_day : ℕ
max_resends_per_day = 10

abbrev pub max_resends_per_ip_hour : ℕ
max_resends_per_ip_hour = 10

abbrev pub max_verify_attempts : ℕ
max_verify_attempts = 5

abbrev pub lockout_seconds : ℕ
lockout_seconds = 900

-- The answer of `checkResendLimits`.
pub data ResendLimit : Type 0 where
  within cooldown hourly daily by_ip : ResendLimit

-- `{ locked, attemptNumber }`.
pub record Attempt : Type 0 where
  pub locked : Bool
  pub attempt_number : ℕ

abbrev pub exists : Option Entry → Bool
exists none = false
exists (some x) = true

-- The seconds that a key has left.
abbrev pub seconds_left : ℕ → Option ℕ → ℕ
seconds_left now none = 0
seconds_left now (some t) = (t - now) / 1000

abbrev pub ttl : ℕ → Option Entry → ℕ
ttl now none = 0
ttl now (some x) = seconds_left now x.expires

module _ {S : Type 0} (b : Backend S) (ip_hash : String → ℕ) where
  abbrev pub is_resend_cooldown_active : S → ℕ → Bool
  is_resend_cooldown_active s u = exists ((b.view s).entry (cooldown_key u))

  abbrev pub get_resend_cooldown_seconds : S → ℕ → ℕ
  get_resend_cooldown_seconds s u = ttl (b.view s).now ((b.view s).entry (cooldown_key u))

  abbrev pub set_resend_cooldown : S → ℕ → S
  set_resend_cooldown s u = b.set_ex s (cooldown_key u) (number 1) cooldown_seconds

  -- `parseInt(await redis.get(key) || '0', 10)`.
  abbrev pub count : S → Key → ℕ
  count s k = number_of ((b.view s).entry k)

  unfoldable pub check_resend_limits : S → ℕ → String → ResendLimit
  check_resend_limits s u ip =
      if is_resend_cooldown_active s u
      then cooldown
      else (if leb max_resends_per_hour (count s (hour_key u))
          then hourly
          else (if leb max_resends_per_day (count s (day_key u))
              then daily
              else (if leb max_resends_per_ip_hour (count s (ip_key (ip_hash ip)))
                  then by_ip
                  else within)))

  -- `INCR` of a key, which is given a time to live when it is new.
  unfoldable pub incr_within : S → Key → ℕ → S × ℕ
  incr_within s k seconds =
      let (s', n) = b.incr s k in ((if n == 1 then b.expire s' k seconds else s'), n)

  unfoldable pub record_resend : S → ℕ → String → S × ℕ
  unfolding incr_within
  record_resend s u ip =
      let (s1, hour_count) = incr_within (set_resend_cooldown s u) (hour_key u) 3600 in
      let s2 = (incr_within s1 (day_key u) 86400).0 in
      ((incr_within s2 (ip_key (ip_hash ip)) 3600).0, hour_count)

  abbrev pub is_verify_locked : S → ℕ → Bool
  is_verify_locked s u = exists ((b.view s).entry (locked_key u))

  unfoldable pub record_verify_attempt : S → ℕ → S × Attempt
  unfolding incr_within
  record_verify_attempt s u =
      let (s', n) = incr_within s (attempts_key u) lockout_seconds in
      if leb max_verify_attempts n
      then (
        b.set_ex s' (locked_key u) (number 1) lockout_seconds,
        record { locked = true; attempt_number = n },
      )
      else (s', record { locked = false; attempt_number = n })

  abbrev pub clear_verify_attempts : S → ℕ → S
  clear_verify_attempts s u = b.del (b.del s (attempts_key u)) (locked_key u)
