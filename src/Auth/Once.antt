-- ===== src/Auth/Once.antt =====
-- A code that is checked again (src/modules/auth/verification/verification.service.ts).
use Prim.Native.String.{String}
use nayft_backend.Common.{
  ℕ, ◌≡◌, refl, ap, inl, inr, Bool, false, ltb, Option, none, some, arith, Bool-cases, Option-cases,
  by_branches,
}
use nayft_backend.Auth.Codes.{Text, normalize_verification_code_input}
use nayft_backend.Auth.Backend.{Purpose, otp_key, StoredOtpPayload, Backend, IsBackend}
use nayft_backend.Auth.RateLimit.{is_verify_locked}
use nayft_backend.Auth.Service.{
  parse_stored, VerifyResult, ok, verify_code, verify_normalized, verify_stored, accept_code,
  reject_code,
}
use nayft_backend.Auth.Issued.{is_ok, same_key-otp}

module _ {S : Type 0} (b : Backend S) (laws : IsBackend b) (hash : ℕ → Purpose → Text → String)
    (same_bytes : String → String → Bool) (hash_ip : String → ℕ) (is_space : ℕ → Bool) where
  gone-accept_code :
      (s : S) (u : ℕ) (p : Purpose) (stored : StoredOtpPayload)
      → (b.view (accept_code b hash same_bytes hash_ip is_space s u p stored).0).entry (otp_key u p)
        ≡ none
  unfolding accept_code
  gone-accept_code s u p stored =
      simp (laws.view-mark_email_verified, laws.view-write_audit, laws.view-del)
        (rw (same_key-otp u p) (ground arith))

  gone-refused :
      (s : S) (u : ℕ) (p : Purpose) (raw : Text)
      → (b.view s).entry (otp_key u p) ≡ none
      → is_ok (verify_code b hash same_bytes hash_ip is_space s u p raw).1 ≡ false
  unfolding verify_code verify_normalized verify_stored
  gone-refused s u p raw gone = elim (Bool-cases (is_verify_locked b hash_ip s u)) [
    | inl shut ↦ rw shut refl
    | inr free ↦ elim (Option-cases (normalize_verification_code_input is_space raw)) [
      | inl bad ↦ rw (free, bad) refl
      | inr (code, good) ↦ rw (free, good, gone) refl
    ]
  ]

  -- An accepted answer has left the state that accepting a stored code leaves.
  Accepted : S → ℕ → Purpose → ℕ → S × VerifyResult → Type 0
  Accepted s u p c r =
      r.1 ≡ ok c
      → (stored : StoredOtpPayload) × (r.0
          ≡ (accept_code b hash same_bytes hash_ip is_space s u p stored).0)

  verify_stored-Accepted :
      (s : S) (u : ℕ) (p : Purpose) (code : Text) (found : Option StoredOtpPayload) (c : ℕ)
      → Accepted s u p c (verify_stored b hash same_bytes hash_ip is_space s u p code found)
  unfolding verify_stored reject_code Accepted
  verify_stored-Accepted s u p code none c = λ e. ground (arith, ap is_ok e)
  verify_stored-Accepted s u p code (some stored) c =
      by_branches (Accepted s u p c) (ltb stored.expires_at (b.view s).now)
        (λ e. ground (arith, ap is_ok e))
        (by_branches (Accepted s u p c) (same_bytes stored.code_hash (hash u p code))
          (λ e. (stored, refl)) (λ e. ground (arith, ap is_ok e)))

  verify_normalized-Accepted :
      (s : S) (u : ℕ) (p : Purpose) (code : Option Text) (c : ℕ)
      → Accepted s u p c (verify_normalized b hash same_bytes hash_ip is_space s u p code)
  unfolding verify_normalized Accepted
  verify_normalized-Accepted s u p none c = λ e. ground (arith, ap is_ok e)
  verify_normalized-Accepted s u p (some code) c =
      verify_stored-Accepted s u p code (parse_stored ((b.view s).entry (otp_key u p))) c

  verify_code-Accepted :
      (s : S) (u : ℕ) (p : Purpose) (raw : Text) (c : ℕ)
      → Accepted s u p c (verify_code b hash same_bytes hash_ip is_space s u p raw)
  unfolding verify_code Accepted
  verify_code-Accepted s u p raw c =
      by_branches (Accepted s u p c) (is_verify_locked b hash_ip s u)
        (λ e. ground (arith, ap is_ok e))
        (verify_normalized-Accepted s u p (normalize_verification_code_input is_space raw) c)

  -- Right after a code is accepted, no code is accepted for this user and purpose.
  pub verify_code_once :
      (s : S) (u : ℕ) (p : Purpose) (raw raw' : Text) (c : ℕ)
      → (verify_code b hash same_bytes hash_ip is_space s u p raw).1 ≡ ok c
      → is_ok
          (verify_code b hash same_bytes hash_ip is_space
            (verify_code b hash same_bytes hash_ip is_space s u p raw).0
            u
            p
            raw').1
        ≡ false
  unfolding Accepted
  verify_code_once s u p raw raw' c e =
      let s' = (verify_code b hash same_bytes hash_ip is_space s u p raw).0 in
      let (stored, same) = verify_code-Accepted s u p raw c e in
      gone-refused s' u p raw' (rw same (gone-accept_code s u p stored))
