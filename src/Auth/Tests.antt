-- ===== src/Auth/Tests.antt =====
-- The view itself as a store, and instances of the theorems on src/modules/auth/verification.
use Prim.Native.String.{String}
use text.Mathlib.Text.{◌==◌ as str_eq}
use text.Mathlib.TextPositions.{eq_refl as str_refl}
use nayft_backend.Common.{
  if◌then◌else◌, ℕ, ◌+◌, ◌*◌, ◌≡◌, refl, Bool, true, false, ◌==◌, [], ◌∷◌, none, some, arith,
}
use nayft_backend.Auth.Codes.{
  Text, is_digit, is_repeated, generate_verification_code, normalize_verification_code_input,
}
use nayft_backend.Auth.Generated.{
  normalize-generate_verification_code, generate_verification_code_first,
}
use nayft_backend.Auth.Backend.{
  Purpose, email_signup, attempts_key, number, View, Backend, IsBackend, put, after, verified,
  until, number_of, expires_of,
}
use nayft_backend.Auth.RateLimit.{record_verify_attempt}
use nayft_backend.Auth.Service.{Options, ok, fail, locked, issue_code, verify_code, resend_code}
use nayft_backend.Auth.Issued.{is_ok, verify_code-issue_code}
use nayft_backend.Auth.Once.{verify_code_once}
use nayft_backend.Auth.Lockout.{verify_code_lockout}
use nayft_backend.Auth.Limits.{IsWithin, resend_code-IsWithin}

abbrev store : Backend View
store = record {
  view = λ v. v;
  set_ex = λ v k x ttl. put v k (some (record { value = x; expires = some (v.now + ttl * 1000) }));
  del = λ v k. put v k none;
  incr = λ v k. (
    put v k (
        some (record {
          value = number (number_of (v.entry k) + 1);
          expires = expires_of (v.entry k);
        })),
    number_of (v.entry k) + 1,
  );
  expire = λ v k ttl. put v k (until (some (v.now + ttl * 1000)) (v.entry k));
  elapse = λ v d. after d v;
  write_audit = λ v w. v;
  create_audit_record = λ v r. (v, 7);
  update_verification_sent = λ v u. v;
  mark_email_verified = λ v u. verified u v;
}

store-IsBackend : IsBackend store
store-IsBackend = record {
  view-set_ex = λ v k x ttl. refl;
  view-del = λ v k. refl;
  incr-number = λ v k. refl;
  view-incr = λ v k. refl;
  view-expire = λ v k ttl. refl;
  view-elapse = λ v d. refl;
  view-write_audit = λ v w. refl;
  view-create_audit_record = λ v r. refl;
  view-update_verification_sent = λ v u. refl;
  view-mark_email_verified = λ v u. refl;
}

-- A hash that keeps only the last digit, which is enough for the codes below.
abbrev last_digit : ℕ → Text → String
last_digit c [] = if c == 54 then "6" else "0"
last_digit c (d ∷ t) = last_digit d t

abbrev hash : ℕ → Purpose → Text → String
hash u p t = last_digit 0 t

abbrev same_bytes : String → String → Bool
same_bytes x y = str_eq x y

abbrev hash_ip : String → ℕ
hash_ip ip = 1

abbrev is_space : ℕ → Bool
is_space c = c == 32

digits : (c : ℕ) → is_digit c ≡ true → is_space c ≡ false
digits c e = ground arith

abbrev empty : View
empty = record { entry = λ k. none; now = 1000; user = λ u. some false }

abbrev options : Options
options = record { locale = none; ip = some "10.0.0.1" }

-- The texts "123456" and "000000".
abbrev code : Text
code = 49 ∷ 50 ∷ 51 ∷ 52 ∷ 53 ∷ 54 ∷ []

abbrev zeros : Text
zeros = 48 ∷ 48 ∷ 48 ∷ 48 ∷ 48 ∷ 48 ∷ []

abbrev issued : View
issued = (issue_code store hash same_bytes hash_ip is_space empty 3 email_signup options code 9).0

normalize-generate_verification_code_example :
    (is_repeated code ≡ false) × (normalize_verification_code_input is_space code ≡ some code)
unfolding generate_verification_code
normalize-generate_verification_code_example =
    normalize-generate_verification_code is_space digits (111111 ∷ 123456 ∷ []) code refl

verify_code-issue_code_example :
    (verify_code store hash same_bytes hash_ip is_space (after 5000 issued) 3 email_signup code).1
    ≡ ok 9
verify_code-issue_code_example =
    verify_code-issue_code store store-IsBackend hash same_bytes hash_ip is_space (λ h. str_refl h)
      digits empty 3 email_signup options code 9 5000 refl refl refl (omega arith)

verify_code_once_example :
    is_ok
      (verify_code store hash same_bytes hash_ip is_space
        (verify_code store hash same_bytes hash_ip is_space issued 3 email_signup code).0
        3
        email_signup
        code).1
    ≡ false
unfolding verify_code issue_code normalize_verification_code_input
verify_code_once_example =
    verify_code_once store store-IsBackend hash same_bytes hash_ip is_space issued 3 email_signup
      code code 9 refl

-- Four wrong codes came before.
abbrev wrong_four : View
wrong_four = put empty (attempts_key 3) (some (record { value = number 4; expires = some 900000 }))

verify_code_lockout_example :
    (verify_code store hash same_bytes hash_ip is_space
      (after 60000
        (verify_code store hash same_bytes hash_ip is_space wrong_four 3 email_signup (49 ∷ [])).0)
      3
      email_signup
      code).1
    ≡ fail locked none none
unfolding verify_code normalize_verification_code_input record_verify_attempt
verify_code_lockout_example =
    verify_code_lockout store store-IsBackend hash same_bytes hash_ip is_space wrong_four 3
      email_signup (49 ∷ []) 5 refl (omega arith) email_signup code 60000 (omega arith)

resend_code-IsWithin_example :
    IsWithin
      (resend_code store hash same_bytes hash_ip is_space empty 3 email_signup options zeros 9).0
      3
      1
resend_code-IsWithin_example =
    resend_code-IsWithin store store-IsBackend hash same_bytes hash_ip is_space empty 3 email_signup
      options zeros 9
      (record { hour_within = omega arith; day_within = omega arith; ip_within = omega arith })

generate_verification_code_first_example :
    generate_verification_code (111111 ∷ 42 ∷ 123456 ∷ []) ≡ some (48 ∷ 48 ∷ 48 ∷ 48 ∷ 52 ∷ 50 ∷ [])
generate_verification_code_first_example =
    generate_verification_code_first (111111 ∷ []) (123456 ∷ []) 42 (refl, tt) refl
