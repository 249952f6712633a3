-- ===== src/Auth/Codes.antt =====
-- src/modules/auth/verification/verificationCode.util.ts. A text is the list of its code units, and
-- `is_space` is the class `\s` of the regular expressions.
use nayft_backend.Common.{
  ℕ, ◌+◌, ◌/◌, ◌%◌, Bool, true, false, not, ◌&&◌, ◌==◌, leb, if◌then◌else◌, List, [], ◌∷◌, Option,
  none, some, length, filter_by,
}

abbrev pub Text : Type 0
Text = List ℕ

abbrev pub otp_length : ℕ
otp_length = 6

abbrev pub otp_max : ℕ
otp_max = 1000000

-- The character of a digit, and the test `\d`.
abbrev pub digit : ℕ → ℕ
digit d = 48 + d

abbrev pub is_digit : ℕ → Bool
is_digit c = leb 48 c && leb c 57

abbrev pub all_digits : Text → Bool
all_digits [] = true
all_digits (c ∷ cs) = is_digit c && all_digits cs

-- `String(n).padStart(OTP_LENGTH, '0')` for `n` below `OTP_MAX`.
abbrev pub pad_start : ℕ → Text
pad_start n =
    digit (n / 100000 % 10)
    ∷ digit (n / 10000 % 10)
    ∷ digit (n / 1000 % 10)
    ∷ digit (n / 100 % 10)
    ∷ digit (n / 10 % 10)
    ∷ digit (n % 10)
    ∷ []

abbrev pub all_same : ℕ → Text → Bool
all_same c [] = true
all_same c (d ∷ ds) = (d == c) && all_same c ds

-- The test `/^(\d)\1{5}$/` of a text of six digits.
abbrev pub is_repeated : Text → Bool
is_repeated [] = false
is_repeated (c ∷ cs) = all_same c cs

-- `generateVerificationCode`, from the numbers that `randomInt(0, OTP_MAX)` draws; there is no code
-- if it draws a repeated digit every time.
unfoldable pub generate_verification_code : List ℕ → Option Text
generate_verification_code [] = none
generate_verification_code (n ∷ draws) =
    let rest = generate_verification_code draws in
    if is_repeated (pad_start n) then rest else some (pad_start n)

-- `normalizeVerificationCodeInput`; taking all spaces out also trims the text.
unfoldable pub normalize_verification_code_input : (ℕ → Bool) → Text → Option Text
normalize_verification_code_input is_space raw =
    let trimmed = filter_by (λ c. not (is_space c)) raw in
    if (length trimmed == otp_length) && all_digits trimmed then some trimmed else none
