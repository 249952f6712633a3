-- ===== src/Auth/Service.antt =====
-- src/modules/auth/verification/verification.service.ts.
use Prim.Native.String.{String}
use text.Mathlib.Text.{◌==◌ as str_eq}
use nayft_backend.Common.{ℕ, ◌+◌, ◌*◌, ltb, Bool, true, false, if◌then◌else◌, Option, none, some}
use nayft_backend.Auth.Codes.{Text, normalize_verification_code_input}
use nayft_backend.Auth.Backend.{
  Purpose, otp_key, StoredOtpPayload, Value, payload, number, Entry, Backend, supersede_pending,
  mark_consumed, mark_expired, mark_locked,
}
use nayft_backend.Auth.RateLimit.{
  ResendLimit, within, cooldown, hourly, daily, by_ip, Attempt, is_verify_locked,
  record_verify_attempt, clear_verify_attempts, check_resend_limits, record_resend,
  get_resend_cooldown_seconds,
}

abbrev pub otp_ttl_seconds : ℕ
otp_ttl_seconds = 86400

abbrev pub parse_value : Value → Option StoredOtpPayload
parse_value (payload p) = some p
parse_value (number n) = none

-- `parseStored` of what Redis has under a key; a number is not a payload that the service wrote.
abbrev pub parse_stored : Option Entry → Option StoredOtpPayload
parse_stored none = none
parse_stored (some x) = parse_value x.value

pub record Options : Type 0 where
  pub locale : Option String
  pub ip : Option String

-- The code, the correlation and the expiry that `issueCode` returns.
pub record Issued : Type 0 where
  pub code : Text
  pub correlation_id : ℕ
  pub expires_at : ℕ

-- `VerificationFailReason`.
pub data FailReason : Type 0 where
  invalid expired locked : FailReason

pub data VerifyResult : Type 0 where
  ok : ℕ → VerifyResult
  fail : FailReason → Option ℕ → Option ℕ → VerifyResult

pub data ResendResult : Type 0 where
  user_not_found already_verified : ResendResult
  limited : ResendLimit → Option ℕ → ResendResult
  sent : Issued → ℕ → ResendResult

abbrev pub or_else : Option String → String → String
or_else none d = d
or_else (some x) d = if str_eq x "" then d else x

abbrev pub reason_of : Attempt → FailReason
reason_of a = if a.locked then locked else invalid

-- `hash` is `hashVerificationCode`, `same_bytes` the comparison of hashes, `hash_ip` the hash of an
-- address, whose short form is a number.
module _ {S : Type 0} (b : Backend S) (hash : ℕ → Purpose → Text → String)
    (same_bytes : String → String → Bool) (hash_ip : String → ℕ) (is_space : ℕ → Bool) where
  abbrev pub ip_hash_of : Option String → Option ℕ
  ip_hash_of none = none
  ip_hash_of (some ip) = if str_eq ip "" then none else some (hash_ip ip)

  -- `issueCode`, with the code and the correlation that it generates.
  unfoldable pub issue_code : S → ℕ → Purpose → Options → Text → ℕ → S × Issued
  issue_code s u p options code correlation =
      let issued : ℕ = (b.view s).now in
      let expires : ℕ = issued + otp_ttl_seconds * 1000 in
      let s1 = b.write_audit s (supersede_pending u p) in
      let (s2, audit) = b.create_audit_record s1 (record {
        user_id = u;
        purpose = p;
        code_hash = hash u p code;
        issued_at = issued;
        expires_at = expires;
        locale = or_else options.locale "en";
        correlation_id = correlation;
        ip_hash = ip_hash_of options.ip;
      }) in
      let s3 =
        b.set_ex s2 (otp_key u p)
          (payload (record {
            code_hash = hash u p code;
            issued_at = issued;
            expires_at = expires;
            correlation_id = correlation;
            audit_id = audit;
          }))
          otp_ttl_seconds in
      (
        b.update_verification_sent s3 u,
        record { code = code; correlation_id = correlation; expires_at = expires },
      )

  -- `verifyCode` after a code that does not match the stored one.
  unfoldable pub reject_code : S → ℕ → StoredOtpPayload → S × VerifyResult
  reject_code s u stored =
      let (s', attempt) = record_verify_attempt b hash_ip s u in
      let audited = b.write_audit s' (mark_locked stored.audit_id attempt.attempt_number) in
      (
        (if attempt.locked then audited else s'),
        fail (reason_of attempt) (some stored.correlation_id) (some attempt.attempt_number),
      )

  unfoldable pub accept_code : S → ℕ → Purpose → StoredOtpPayload → S × VerifyResult
  accept_code s u p stored =
      let s1 = clear_verify_attempts b hash_ip (b.del s (otp_key u p)) u in
      let s2 = b.write_audit s1 (mark_consumed stored.audit_id 0) in
      (b.mark_email_verified s2 u, ok stored.correlation_id)

  -- `verifyCode` from the stored payload on.
  unfoldable pub verify_stored : S → ℕ → Purpose → Text → Option StoredOtpPayload → S × VerifyResult
  unfolding reject_code accept_code
  verify_stored s u p code none = (s, fail expired none none)
  verify_stored s u p code (some stored) =
      if ltb stored.expires_at (b.view s).now
      then (
        b.del (b.write_audit s (mark_expired stored.audit_id)) (otp_key u p),
        fail expired (some stored.correlation_id) none,
      )
      else (if same_bytes stored.code_hash (hash u p code)
          then accept_code s u p stored
          else reject_code s u stored)

  -- `verifyCode` from the normalized input on.
  unfoldable pub verify_normalized : S → ℕ → Purpose → Option Text → S × VerifyResult
  unfolding verify_stored
  verify_normalized s u p none =
      let (s', attempt) = record_verify_attempt b hash_ip s u in
      (s', fail invalid none (some attempt.attempt_number))
  verify_normalized s u p (some code) =
      verify_stored s u p code (parse_stored ((b.view s).entry (otp_key u p)))

  -- `verifyCode`.
  unfoldable pub verify_code : S → ℕ → Purpose → Text → S × VerifyResult
  unfolding verify_normalized
  verify_code s u p raw =
      if is_verify_locked b hash_ip s u
      then (s, fail locked none none)
      else verify_normalized s u p (normalize_verification_code_input is_space raw)

  abbrev pub cooldown_of : S → ℕ → ResendLimit → Option ℕ
  cooldown_of s u cooldown = some (get_resend_cooldown_seconds b hash_ip s u)
  cooldown_of s u within = none
  cooldown_of s u hourly = none
  cooldown_of s u daily = none
  cooldown_of s u by_ip = none

  unfoldable pub resend_within :
      S → ℕ → Purpose → Options → Text → ℕ → ResendLimit → S × ResendResult
  unfolding issue_code
  resend_within s u p options code correlation within =
      let (s1, issued) = issue_code s u p options code correlation in
      let (s2, attempts) = record_resend b hash_ip s1 u (or_else options.ip "unknown") in
      (s2, sent issued attempts)
  resend_within s u p options code correlation cooldown =
      (s, limited cooldown (cooldown_of s u cooldown))
  resend_within s u p options code correlation hourly = (s, limited hourly (cooldown_of s u hourly))
  resend_within s u p options code correlation daily = (s, limited daily (cooldown_of s u daily))
  resend_within s u p options code correlation by_ip = (s, limited by_ip (cooldown_of s u by_ip))

  unfoldable pub resend_for : S → ℕ → Purpose → Options → Text → ℕ → Option Bool → S × ResendResult
  unfolding resend_within
  resend_for s u p options code correlation none = (s, user_not_found)
  resend_for s u p options code correlation (some true) = (s, already_verified)
  resend_for s u p options code correlation (some false) =
      resend_within s u p options code correlation
        (check_resend_limits b hash_ip s u (or_else options.ip "unknown"))

  -- `resendCode`, with the code and the correlation that `issueCode` would generate.
  unfoldable pub resend_code : S → ℕ → Purpose → Options → Text → ℕ → S × ResendResult
  unfolding resend_for
  resend_code s u p options code correlation =
      resend_for s u p options code correlation ((b.view s).user u)
