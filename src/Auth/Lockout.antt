-- ===== src/Auth/Lockout.antt =====
-- The lockout after wrong codes (src/modules/auth/verification/verificationRateLimit.ts).
use Prim.Native.String.{String}
use nayft_backend.Common.{
  ℕ, ◌+◌, ◌*◌, ◌≤◌, ◌<◌, ◌≡◌, refl, sym, inl, inr, Bool, true, false, leb, ltb, Option, none, some,
  arith, Bool-cases, by_branches, le→leb,
}
use nayft_backend.Auth.Codes.{Text, normalize_verification_code_input}
use nayft_backend.Auth.Backend.{
  Purpose, otp_key, locked_key, attempts_key, StoredOtpPayload, number, View, Backend, IsBackend,
  same_key, mark_locked,
}
use nayft_backend.Auth.RateLimit.{
  record_verify_attempt, incr_within, lockout_seconds, max_verify_attempts, is_verify_locked,
}
use nayft_backend.Auth.Service.{
  parse_stored, VerifyResult, ok, fail, locked, verify_code, verify_normalized, verify_stored,
  accept_code, reject_code,
}

same_key_self : (u : ℕ) → same_key (locked_key u) (locked_key u) ≡ true
same_key_self u = ground arith

not_over : (now d : ℕ) → d < 900000 → leb (now + 900000) (now + d) ≡ false
not_over now d h = ground arith

-- The user is locked out for the 15 minutes from now.
abbrev IsLockedFor : ℕ → View → Type 0
IsLockedFor u v =
    v.entry (locked_key u) ≡ some (record { value = number 1; expires = some (v.now + 900000) })

abbrev pub number_of_attempt : VerifyResult → Option ℕ
number_of_attempt (ok c) = none
number_of_attempt (fail r c n) = n

module _ {S : Type 0} (b : Backend S) (laws : IsBackend b) (hash : ℕ → Purpose → Text → String)
    (same_bytes : String → String → Bool) (hash_ip : String → ℕ) (is_space : ℕ → Bool) where
  attempt_number-record_verify_attempt :
      (s : S) (u : ℕ)
      → (record_verify_attempt b hash_ip s u).1.attempt_number ≡ (b.incr s (attempts_key u)).1
  unfolding record_verify_attempt incr_within
  attempt_number-record_verify_attempt s u =
      elim (Bool-cases (leb 5 (b.incr s (attempts_key u)).1)) [
        | inl many ↦ rw many refl
        | inr few ↦ rw few refl
      ]

  locked-record_verify_attempt :
      (s : S) (u : ℕ)
      → 5 ≤ (record_verify_attempt b hash_ip s u).1.attempt_number
      → IsLockedFor u (b.view (record_verify_attempt b hash_ip s u).0)
  unfolding record_verify_attempt incr_within
  locked-record_verify_attempt s u h =
      let s' = (incr_within b hash_ip s (attempts_key u) lockout_seconds).0 in
      let many =
        le→leb 5 (b.incr s (attempts_key u)).1
          (rw (sym (attempt_number-record_verify_attempt s u)) h) in
      rw many (
        rw (laws.view-set_ex s' (locked_key u) (number 1) lockout_seconds)
          (rw (same_key_self u) refl))

  still_locked :
      (s : S) (u : ℕ) (p : Purpose) (raw : Text) (d : ℕ)
      → IsLockedFor u (b.view s)
      → d < 900000
      → (verify_code b hash same_bytes hash_ip is_space (b.elapse s d) u p raw).1
        ≡ fail locked none none
  unfolding verify_code
  still_locked s u p raw d h early =
      rw (laws.view-elapse s d) (rw h (rw (not_over (b.view s).now d early) refl))

  view-reject_code :
      (s : S) (u : ℕ) (stored : StoredOtpPayload)
      → b.view (reject_code b hash same_bytes hash_ip is_space s u stored).0
        ≡ b.view (record_verify_attempt b hash_ip s u).0
  unfolding reject_code
  view-reject_code s u stored =
      let (s', a) = record_verify_attempt b hash_ip s u in
      elim (Bool-cases a.locked) [
        | inl shut ↦
            rw shut (laws.view-write_audit s' (mark_locked stored.audit_id a.attempt_number))
        | inr free ↦ rw free refl
      ]

  -- A result with an attempt number has left the state that recording the attempt leaves.
  Counted : S → ℕ → ℕ → S × VerifyResult → Type 0
  Counted s u n r =
      number_of_attempt r.1 ≡ some n
      → (n ≡ (record_verify_attempt b hash_ip s u).1.attempt_number)
        × (b.view r.0 ≡ b.view (record_verify_attempt b hash_ip s u).0)

  verify_stored-Counted :
      (s : S) (u : ℕ) (p : Purpose) (code : Text) (found : Option StoredOtpPayload) (n : ℕ)
      → Counted s u n (verify_stored b hash same_bytes hash_ip is_space s u p code found)
  unfolding verify_stored reject_code Counted accept_code
  verify_stored-Counted s u p code none n = λ e. ground arith
  verify_stored-Counted s u p code (some stored) n =
      by_branches (Counted s u n) (ltb stored.expires_at (b.view s).now) (λ e. ground arith)
        (by_branches (Counted s u n) (same_bytes stored.code_hash (hash u p code))
          (λ e. ground arith) (λ e. (ground arith, view-reject_code s u stored)))

  verify_normalized-Counted :
      (s : S) (u : ℕ) (p : Purpose) (code : Option Text) (n : ℕ)
      → Counted s u n (verify_normalized b hash same_bytes hash_ip is_space s u p code)
  unfolding verify_normalized Counted
  verify_normalized-Counted s u p none n = λ e. (ground arith, refl)
  verify_normalized-Counted s u p (some code) n =
      verify_stored-Counted s u p code (parse_stored ((b.view s).entry (otp_key u p))) n

  verify_code-Counted :
      (s : S) (u : ℕ) (p : Purpose) (raw : Text) (n : ℕ)
      → Counted s u n (verify_code b hash same_bytes hash_ip is_space s u p raw)
  unfolding verify_code Counted
  verify_code-Counted s u p raw n =
      by_branches (Counted s u n) (is_verify_locked b hash_ip s u) (λ e. ground arith)
        (verify_normalized-Counted s u p (normalize_verification_code_input is_space raw) n)

  -- When an answer says that it was the fifth wrong attempt or a later one, every code of the user is
  -- refused for the 15 minutes after it.
  pub verify_code_lockout :
      (s : S) (u : ℕ) (p : Purpose) (raw : Text) (n : ℕ)
      → number_of_attempt (verify_code b hash same_bytes hash_ip is_space s u p raw).1 ≡ some n
      → max_verify_attempts ≤ n
      → (p' : Purpose) (raw' : Text) (d : ℕ) → d < lockout_seconds * 1000
      → let s' = (verify_code b hash same_bytes hash_ip is_space s u p raw).0 in
        (verify_code b hash same_bytes hash_ip is_space (b.elapse s' d) u p' raw').1
        ≡ fail locked none none
  unfolding Counted
  verify_code_lockout s u p raw n e many p' raw' d early =
      let (same, seen) = verify_code-Counted s u p raw n e in
      still_locked (verify_code b hash same_bytes hash_ip is_space s u p raw).0 u p' raw' d
        (rw seen (locked-record_verify_attempt s u (rw (sym same) many))) early
