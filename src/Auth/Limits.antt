-- ===== src/Auth/Limits.antt =====
-- The limits on sending codes again (src/modules/auth/verification/verificationRateLimit.ts).
use Prim.Native.String.{String}
use nayft_backend.Common.{
  ℕ, ◌+◌, ◌*◌, ◌≤◌, ◌<◌, ◌≡◌, refl, ap, ◌∙◌, Bool, true, false, ◌==◌, if◌then◌else◌, Option, none,
  some, arith, by_branches, ==_refl,
}
use nayft_backend.Auth.Codes.{Text}
use nayft_backend.Auth.Backend.{
  Purpose, Key, otp_key, cooldown_key, hour_key, day_key, ip_key, number, Entry, View, Backend,
  IsBackend, same_key, expires_of, family, owner, until, number_of,
}
use nayft_backend.Auth.RateLimit.{
  ResendLimit, within, cooldown, hourly, daily, by_ip, check_resend_limits, incr_within,
  record_resend, count, set_resend_cooldown, cooldown_seconds,
}
use nayft_backend.Auth.Service.{
  Options, or_else, issue_code, resend_within, resend_for, resend_code,
}
use nayft_backend.Auth.Issued.{view-issue_code}

number_of-until : (t : Option ℕ) (x : Option Entry) → number_of (until t x) ≡ number_of x
number_of-until t none = refl
number_of-until t (some x) = refl

number_of-choose :
    (same : Bool) (x y : Option Entry)
    → number_of (if same then x else y) ≡ (if same then number_of x else number_of y)
number_of-choose true x y = refl
number_of-choose false x y = refl

renewed :
    (same : Bool) (x y : Option Entry) (t : Option ℕ) {n : ℕ} (m : ℕ)
    → number_of x ≡ n
    → number_of y ≡ (if same then n else m)
    → number_of (if same then until t x else y) ≡ (if same then n else m)
renewed true x y t m e e' = number_of-until t x ∙ e
renewed false x y t m e e' = e'

same_key_refl : (k : Key) → same_key k k ≡ true
same_key_refl k = ground (arith, ==_refl (family k), ==_refl (owner k))

-- No key but that of a code is the key of a code.
apart : (k : Key) (u : ℕ) (p : Purpose) → 4 ≤ family k → same_key k (otp_key u p) ≡ false
apart k u p h = ground arith

-- The counters of a user and of an address do not pass the limits.
pub record IsWithin (v : View) (u i : ℕ) : Type 0 where
  pub hour_within : number_of (v.entry (hour_key u)) ≤ 3
  pub day_within : number_of (v.entry (day_key u)) ≤ 10
  pub ip_within : number_of (v.entry (ip_key i)) ≤ 10

module _ {S : Type 0} (b : Backend S) (laws : IsBackend b) (hash_ip : String → ℕ) where
  count-incr :
      (s : S) (k j : Key)
      → count b hash_ip (b.incr s k).0 j
        ≡ (if same_key j k then count b hash_ip s k + 1 else count b hash_ip s j)
  count-incr s k j = rw (laws.view-incr s k) (
      number_of-choose (same_key j k)
        (some (record {
          value = number (number_of ((b.view s).entry k) + 1);
          expires = expires_of ((b.view s).entry k);
        }))
        ((b.view s).entry j))

  count-incr_within :
      (s : S) (k j : Key) (seconds : ℕ)
      → count b hash_ip (incr_within b hash_ip s k seconds).0 j
        ≡ (if same_key j k then count b hash_ip s k + 1 else count b hash_ip s j)
  unfolding incr_within
  count-incr_within s k j seconds =
      by_branches
        (λ x.
          count b hash_ip x j
          ≡ (if same_key j k then count b hash_ip s k + 1 else count b hash_ip s j))
        ((b.incr s k).1 == 1)
        (rw (laws.view-expire (b.incr s k).0 k seconds) (
          renewed (same_key j k) ((b.view (b.incr s k).0).entry k) ((b.view (b.incr s k).0).entry j)
            (some ((b.view (b.incr s k).0).now + seconds * 1000)) (count b hash_ip s j)
            (count-incr s k k
              ∙ ap (λ x. if x then count b hash_ip s k + 1 else count b hash_ip s k)
                  (same_key_refl k))
            (count-incr s k j)))
        (count-incr s k j)

  count-set_resend_cooldown :
      (s : S) (u : ℕ) (j : Key)
      → same_key j (cooldown_key u) ≡ false
      → count b hash_ip (set_resend_cooldown b hash_ip s u) j ≡ count b hash_ip s j
  count-set_resend_cooldown s u j e =
      rw (laws.view-set_ex s (cooldown_key u) (number 1) cooldown_seconds) (rw e refl)

  within-limits :
      (s : S) (u : ℕ) (ip : String)
      → check_resend_limits b hash_ip s u ip ≡ within
      → (count b hash_ip s (hour_key u) < 3)
        × (count b hash_ip s (day_key u) < 10)
        × (count b hash_ip s (ip_key (hash_ip ip)) < 10)
  unfolding check_resend_limits
  within-limits s u ip e = ground arith

  record_resend-IsWithin :
      (s : S) (u : ℕ) (ip : String)
      → check_resend_limits b hash_ip s u ip ≡ within
      → IsWithin (b.view (record_resend b hash_ip s u ip).0) u (hash_ip ip)
  unfolding record_resend
  record_resend-IsWithin s u ip e =
      let (h, d, i) = within-limits s u ip e in
      let s0 = set_resend_cooldown b hash_ip s u in
      let s1 = (incr_within b hash_ip s0 (hour_key u) 3600).0 in
      let s2 = (incr_within b hash_ip s1 (day_key u) 86400).0 in
      record {
        hour_within = ground (
          arith,
          h,
          count-set_resend_cooldown s u (hour_key u) refl,
          count-incr_within s0 (hour_key u) (hour_key u) 3600,
          count-incr_within s1 (day_key u) (hour_key u) 86400,
          count-incr_within s2 (ip_key (hash_ip ip)) (hour_key u) 3600,
        );
        day_within = ground (
          arith,
          d,
          count-set_resend_cooldown s u (day_key u) refl,
          count-incr_within s0 (hour_key u) (day_key u) 3600,
          count-incr_within s1 (day_key u) (day_key u) 86400,
          count-incr_within s2 (ip_key (hash_ip ip)) (day_key u) 3600,
        );
        ip_within = ground (
          arith,
          i,
          count-set_resend_cooldown s u (ip_key (hash_ip ip)) refl,
          count-incr_within s0 (hour_key u) (ip_key (hash_ip ip)) 3600,
          count-incr_within s1 (day_key u) (ip_key (hash_ip ip)) 86400,
          count-incr_within s2 (ip_key (hash_ip ip)) (ip_key (hash_ip ip)) 3600,
        );
      }

module _ {S : Type 0} (b : Backend S) (laws : IsBackend b) (hash : ℕ → Purpose → Text → String)
    (same_bytes : String → String → Bool) (hash_ip : String → ℕ) (is_space : ℕ → Bool) where
  issue_code-within :
      (s : S) (u : ℕ) (p : Purpose) (options : Options) (code : Text) (correlation : ℕ)
      (ip : String)
      → check_resend_limits b hash_ip
          (issue_code b hash same_bytes hash_ip is_space s u p options code correlation).0
          u
          ip
        ≡ check_resend_limits b hash_ip s u ip
  unfolding check_resend_limits
  issue_code-within s u p options code correlation ip =
      rw
        ((view-issue_code b laws hash same_bytes hash_ip is_space s u p options code correlation).1)
        (rw
          (
            apart (cooldown_key u) u p (omega arith),
            apart (hour_key u) u p (omega arith),
            apart (day_key u) u p (omega arith),
            apart (ip_key (hash_ip ip)) u p (omega arith),
          )
          refl)

  resend_within-IsWithin :
      (s : S) (u : ℕ) (p : Purpose) (options : Options) (code : Text) (correlation : ℕ)
      (l : ResendLimit)
      → check_resend_limits b hash_ip s u (or_else options.ip "unknown") ≡ l
      → IsWithin (b.view s) u (hash_ip (or_else options.ip "unknown"))
      → IsWithin
          (b.view
            (resend_within b hash same_bytes hash_ip is_space s u p options code correlation l).0)
          u
          (hash_ip (or_else options.ip "unknown"))
  unfolding resend_within
  resend_within-IsWithin s u p options code correlation within e h =
      record_resend-IsWithin b laws hash_ip
        (issue_code b hash same_bytes hash_ip is_space s u p options code correlation).0 u
        (or_else options.ip "unknown")
        (issue_code-within s u p options code correlation (or_else options.ip "unknown") ∙ e)
  resend_within-IsWithin s u p options code correlation cooldown e h = h
  resend_within-IsWithin s u p options code correlation hourly e h = h
  resend_within-IsWithin s u p options code correlation daily e h = h
  resend_within-IsWithin s u p options code correlation by_ip e h = h

  resend_for-IsWithin :
      (s : S) (u : ℕ) (p : Purpose) (options : Options) (code : Text) (correlation : ℕ)
      (user : Option Bool)
      → IsWithin (b.view s) u (hash_ip (or_else options.ip "unknown"))
      → IsWithin
          (b.view
            (resend_for b hash same_bytes hash_ip is_space s u p options code correlation user).0)
          u
          (hash_ip (or_else options.ip "unknown"))
  unfolding resend_for
  resend_for-IsWithin s u p options code correlation none h = h
  resend_for-IsWithin s u p options code correlation (some true) h = h
  resend_for-IsWithin s u p options code correlation (some false) h =
      resend_within-IsWithin s u p options code correlation
        (check_resend_limits b hash_ip s u (or_else options.ip "unknown")) refl h

  -- Sending a code again keeps the counters of the user and of the address within 3 an hour, 10 a day
  -- and 10 an hour, whatever it answers.
  pub resend_code-IsWithin :
      (s : S) (u : ℕ) (p : Purpose) (options : Options) (code : Text) (correlation : ℕ)
      → IsWithin (b.view s) u (hash_ip (or_else options.ip "unknown"))
      → IsWithin
          (b.view (resend_code b hash same_bytes hash_ip is_space s u p options code correlation).0)
          u
          (hash_ip (or_else options.ip "unknown"))
  unfolding resend_code
  resend_code-IsWithin s u p options code correlation h =
      resend_for-IsWithin s u p options code correlation ((b.view s).user u) h
