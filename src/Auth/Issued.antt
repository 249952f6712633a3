-- ===== src/Auth/Issued.antt =====
-- A code that is issued and then checked (src/modules/auth/verification/verification.service.ts).
use Prim.Native.String.{String}
use nayft_backend.Common.{
  ℕ, ◌+◌, ◌*◌, ◌<◌, ◌≡◌, refl, ap, ◌∙◌, Bool, true, false, leb, ltb, Option, none, some, length,
  arith,
}
use nayft_backend.Auth.Codes.{Text, is_digit, all_digits, otp_length}
use nayft_backend.Auth.Generated.{normalize-digits}
use nayft_backend.Auth.Backend.{
  Purpose, otp_key, locked_key, StoredOtpPayload, payload, Entry, Backend, IsBackend, put, after,
  still, same_key, AuditRecord, supersede_pending,
}
use nayft_backend.Auth.RateLimit.{is_verify_locked, exists}
use nayft_backend.Auth.Service.{
  otp_ttl_seconds, parse_stored, Options, VerifyResult, ok, fail, or_else, ip_hash_of, issue_code,
  verify_code, verify_normalized, verify_stored, accept_code,
}

abbrev pub is_ok : VerifyResult → Bool
is_ok (ok c) = true
is_ok (fail r c n) = false

same_key-locked : (u : ℕ) (p : Purpose) → same_key (locked_key u) (otp_key u p) ≡ false
same_key-locked u p = ground arith

pub same_key-otp : (u : ℕ) (p : Purpose) → same_key (otp_key u p) (otp_key u p) ≡ true
same_key-otp u p = ground arith

exists-still : (t : ℕ) (x : Option Entry) → exists x ≡ false → exists (still t x) ≡ false
exists-still t none e = refl
exists-still t (some x) e = ground arith

not_over : (now d : ℕ) → d < 86400000 → leb (now + 86400000) (now + d) ≡ false
not_over now d h = ground arith

not_late : (now d : ℕ) → d < 86400000 → ltb (now + 86400000) (now + d) ≡ false
not_late now d h = ground arith

module _ {S : Type 0} (b : Backend S) (laws : IsBackend b) (hash : ℕ → Purpose → Text → String)
    (same_bytes : String → String → Bool) (hash_ip : String → ℕ) (is_space : ℕ → Bool) where
  abbrev pub stored_for : S → ℕ → Purpose → Text → ℕ → ℕ → Entry
  stored_for s u p code correlation audit = record {
    value = payload (record {
      code_hash = hash u p code;
      issued_at = (b.view s).now;
      expires_at = (b.view s).now + otp_ttl_seconds * 1000;
      correlation_id = correlation;
      audit_id = audit;
    });
    expires = some ((b.view s).now + otp_ttl_seconds * 1000);
  }

  abbrev pub audit_record : S → ℕ → Purpose → Options → Text → ℕ → AuditRecord
  audit_record s u p options code correlation = record {
    user_id = u;
    purpose = p;
    code_hash = hash u p code;
    issued_at = (b.view s).now;
    expires_at = (b.view s).now + otp_ttl_seconds * 1000;
    locale = or_else options.locale "en";
    correlation_id = correlation;
    ip_hash = ip_hash_of b hash same_bytes hash_ip is_space options.ip;
  }

  pub view-issue_code :
      (s : S) (u : ℕ) (p : Purpose) (options : Options) (code : Text) (correlation : ℕ)
      → (audit : ℕ) × (b.view
            (issue_code b hash same_bytes hash_ip is_space s u p options code correlation).0
          ≡ put (b.view s) (otp_key u p) (some (stored_for s u p code correlation audit)))
  unfolding issue_code
  view-issue_code s u p options code correlation = (
    (b.create_audit_record (b.write_audit s (supersede_pending u p))
        (audit_record s u p options code correlation)).1,
    simp
        (
          laws.view-update_verification_sent, laws.view-set_ex, laws.view-create_audit_record,
          laws.view-write_audit,
        )
        refl,
  )

  verify_code-accepts :
      (digits : (c : ℕ) → is_digit c ≡ true → is_space c ≡ false)
      → (s : S) (u : ℕ) (p : Purpose) (code : Text) (stored : StoredOtpPayload)
      → length code ≡ otp_length
      → all_digits code ≡ true
      → is_verify_locked b hash_ip s u ≡ false
      → parse_stored ((b.view s).entry (otp_key u p)) ≡ some stored
      → ltb stored.expires_at (b.view s).now ≡ false
      → same_bytes stored.code_hash (hash u p code) ≡ true
      → (verify_code b hash same_bytes hash_ip is_space s u p code).1 ≡ ok stored.correlation_id
  unfolding verify_code verify_normalized verify_stored accept_code
  verify_code-accepts digits s u p code stored six all_d free found fresh match =
      rw (free, normalize-digits is_space digits code six all_d, found, fresh, match) refl

  -- A code of six digits that is issued is accepted for 24 hours, with the correlation that it was
  -- issued with, if the user is not locked out and the code reaches the service as it was sent.
  pub verify_code-issue_code :
      (same : (h : String) → same_bytes h h ≡ true)
      → (digits : (c : ℕ) → is_digit c ≡ true → is_space c ≡ false)
      → (s : S) (u : ℕ) (p : Purpose) (options : Options) (code : Text) (correlation d : ℕ)
      → length code ≡ otp_length
      → all_digits code ≡ true
      → is_verify_locked b hash_ip s u ≡ false
      → d < otp_ttl_seconds * 1000
      → let s' = (issue_code b hash same_bytes hash_ip is_space s u p options code correlation).0 in
        (verify_code b hash same_bytes hash_ip is_space (b.elapse s' d) u p code).1 ≡ ok correlation
  verify_code-issue_code same digits s u p options code correlation d six all_d free early =
      let (audit, seen) = view-issue_code s u p options code correlation in
      let s' = (issue_code b hash same_bytes hash_ip is_space s u p options code correlation).0 in
      let later = laws.view-elapse s' d ∙ ap (after d) seen in
      let entry = stored_for s u p code correlation audit in
      verify_code-accepts digits (b.elapse s' d) u p code
        (record {
          code_hash = hash u p code;
          issued_at = (b.view s).now;
          expires_at = (b.view s).now + otp_ttl_seconds * 1000;
          correlation_id = correlation;
          audit_id = audit;
        })
        six all_d
        (rw later (
          rw (same_key-locked u p)
            (exists-still ((b.view s).now + d) ((b.view s).entry (locked_key u)) free)))
        (rw later (rw (same_key-otp u p) (rw (not_over ((b.view s).now) d early) refl)))
        (rw later (not_late ((b.view s).now) d early)) (same (hash u p code))
