-- ===== src/Passwords/Tests.antt =====
-- Instances of the theorems on packages/nayft-password-policy, with small stand-ins for the score and
-- for the list of common passwords.
use nayft_backend.Common.{ℕ, ◌≡◌, refl, Bool, true, false, ◌==◌, List, [], ◌∷◌, none, some, length}
use nayft_backend.Passwords.Rules.{
  Text, PasswordContext, contains_email, whitespace, text_eq, check_hard_rules, includes,
  has_repeated_chars,
}
use nayft_backend.Passwords.Evaluation.{is_empty, evaluate_password}
use nayft_backend.Passwords.Acceptable.{
  IsSafe, evaluate_password-IsSafe, evaluate_password-violations,
}

abbrev is_space : ℕ → Bool
is_space c = c == 32

abbrev lower : Text → Text
lower t = t

abbrev is_common : Text → Bool
is_common t = text_eq t (112 ∷ 97 ∷ 115 ∷ 115 ∷ [])

-- The score of a text is 4 if it has 12 units and 1 otherwise.
abbrev rate : ℕ → ℕ
rate n = elim (n == 12) [ true ↦ 4 | false ↦ 1 ]

abbrev score_password : Text → List Text → ℕ
score_password t inputs = rate (length t)

-- "abcdefghijkl", and the address "abc@x".
abbrev letters : Text
letters = 97 ∷ 98 ∷ 99 ∷ 100 ∷ 101 ∷ 102 ∷ 103 ∷ 104 ∷ 105 ∷ 106 ∷ 107 ∷ 108 ∷ []

abbrev nobody : PasswordContext
nobody = record { email = none; username = none }

abbrev abc : PasswordContext
abc = record { email = some (97 ∷ 98 ∷ 99 ∷ 64 ∷ 120 ∷ []); username = none }

email_test : check_hard_rules is_space lower is_common letters abc ≡ contains_email ∷ []
unfolding check_hard_rules includes has_repeated_chars
email_test = refl

space_test : check_hard_rules is_space lower is_common (32 ∷ letters) nobody ≡ whitespace ∷ []
unfolding check_hard_rules includes has_repeated_chars
space_test = refl

letters_pass :
    (evaluate_password is_space lower is_common score_password letters nobody).is_acceptable ≡ true
unfolding evaluate_password check_hard_rules includes has_repeated_chars
letters_pass = refl

evaluate_password-IsSafe_example : IsSafe is_space lower is_common 4 letters [] []
evaluate_password-IsSafe_example =
    evaluate_password-IsSafe is_space lower is_common score_password letters nobody letters_pass

evaluate_password-violations_example :
    (evaluate_password is_space lower is_common score_password letters abc).is_acceptable
    ≡ is_empty (evaluate_password is_space lower is_common score_password letters abc).violations
evaluate_password-violations_example =
    evaluate_password-violations is_space lower is_common score_password letters abc
