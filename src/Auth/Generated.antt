-- ===== src/Auth/Generated.antt =====
-- What `generateVerificationCode` gives (src/modules/auth/verification/verificationCode.util.ts).
use nayft_backend.Common.{
  All, ℕ, ◌≡◌, ◌⊎◌, refl, sym, inl, inr, Bool, true, false, not, if◌then◌else◌, List, [], ◌∷◌, ◌++◌,
  Option, some, length, filter_by, arith,
}
use nayft_backend.Auth.Codes.{
  Text, otp_length, is_digit, all_digits, pad_start, is_repeated, generate_verification_code,
  normalize_verification_code_input,
}

pub filter-digits :
    (is_space : ℕ → Bool)
    → ((c : ℕ) → is_digit c ≡ true → is_space c ≡ false)
    → (t : Text) → all_digits t ≡ true
    → filter_by (λ c. not (is_space c)) t ≡ t
filter-digits is_space h [] e = refl
filter-digits is_space h (c ∷ cs) e = ground (arith, h c, filter-digits is_space h cs)

pad_start-digits : (n : ℕ) → all_digits (pad_start n) ≡ true
pad_start-digits n = ground arith

pub normalize-digits :
    (is_space : ℕ → Bool)
    → ((c : ℕ) → is_digit c ≡ true → is_space c ≡ false)
    → (t : Text) → length t ≡ otp_length
    → all_digits t ≡ true
    → normalize_verification_code_input is_space t ≡ some t
unfolding normalize_verification_code_input
normalize-digits is_space h t six e = rw (filter-digits is_space h t e, six, e) refl

found-cases :
    (b : Bool) (rest : Option Text) (t code : Text)
    → (if b then rest else some t) ≡ some code
    → (rest ≡ some code) ⊎ ((b ≡ false) × (t ≡ code))
found-cases true rest t code e = inl e
found-cases false rest t code e = inr (refl, ground arith)

-- A code that is generated is not one digit six times over, and the normalization of the user's
-- input leaves it as it is, if no digit is a space.
pub normalize-generate_verification_code :
    (is_space : ℕ → Bool)
    → ((c : ℕ) → is_digit c ≡ true → is_space c ≡ false)
    → (draws : List ℕ) (code : Text) → generate_verification_code draws ≡ some code
    → (is_repeated code ≡ false) × (normalize_verification_code_input is_space code ≡ some code)
unfolding generate_verification_code
normalize-generate_verification_code is_space h [] code e = ground arith
normalize-generate_verification_code is_space h (n ∷ draws) code e =
    elim (found-cases (is_repeated (pad_start n)) (generate_verification_code draws) (pad_start n)
      code e) [
        | inl later ↦ normalize-generate_verification_code is_space h draws code later
        | inr (fresh, now) ↦
            rw (sym now)
              (fresh, normalize-digits is_space h (pad_start n) refl (pad_start-digits n))
      ]

-- The code is that of the first drawn number that is not a repeated digit, padded to six digits:
-- the numbers drawn before it are skipped, and none after it is looked at.
pub generate_verification_code_first :
    (before after : List ℕ) (n : ℕ)
    → All (λ m. is_repeated (pad_start m) ≡ true) before
    → is_repeated (pad_start n) ≡ false
    → generate_verification_code (before ++ n ∷ after) ≡ some (pad_start n)
unfolding generate_verification_code
generate_verification_code_first [] after n skipped fresh = rw fresh refl
generate_verification_code_first (m ∷ before) after n skipped fresh =
    rw skipped.0 (generate_verification_code_first before after n skipped.1 fresh)
