-- ===== src/Passwords/Evaluation.antt =====
-- packages/nayft-password-policy/src/evaluatePassword.ts and levels.ts. A fill ratio is in hundredths.
use nayft_backend.Common.{
  ℕ, ◌+◌, ◌*◌, Bool, true, false, not, ◌&&◌, ◌||◌, ◌==◌, ltb, leb, min, if◌then◌else◌, List, [],
  ◌∷◌, ◌++◌, Option, none, some,
}
use nayft_backend.Passwords.Rules.{
  Text, ViolationCode, min_length, insufficient_entropy, PasswordContext, check_hard_rules,
}

pub data StrengthLevel : Type 0 where
  poor low strong : StrengthLevel

abbrev pub is_strong : StrengthLevel → Bool
is_strong poor = false
is_strong low = false
is_strong strong = true

abbrev pub password_min_zxcvbn_score : ℕ
password_min_zxcvbn_score = 3

unfoldable pub map_score_to_level : ℕ → Bool → StrengthLevel
map_score_to_level score violated =
    if violated || leb score 1 then poor else (if score == 2 then low else strong)

unfoldable pub compute_fill_ratio : ℕ → Bool → ℕ
compute_fill_ratio score violated =
    if violated then min 33 ((score + 1) * 20) else min 100 ((score + 1) * 20)

abbrev pub is_empty : List ViolationCode → Bool
is_empty [] = true
is_empty (v ∷ vs) = false

unfoldable pub is_acceptable_level : StrengthLevel → ℕ → List ViolationCode → Bool
is_acceptable_level level score violations =
    is_strong level && leb password_min_zxcvbn_score score && is_empty violations

-- The key of the message: that of the first violation, or one of two that need none.
pub data Feedback : Type 0 where
  violation_key : ViolationCode → Feedback
  strong_key weak_key : Feedback

-- `PasswordEvaluationResult` without the check list of the form; `valid` is `isAcceptable` always.
pub record EvaluationResult : Type 0 where
  pub level : StrengthLevel
  pub score : ℕ
  pub fill_ratio : ℕ
  pub violations : List ViolationCode
  pub feedback : Feedback
  pub is_acceptable : Bool

abbrev pub feedback_of : List ViolationCode → Bool → Feedback
feedback_of [] acceptable = if acceptable then strong_key else weak_key
feedback_of (v ∷ vs) acceptable = violation_key v

-- The violations with that of a score that is too low, which counts only where there is no other.
unfoldable pub with_entropy : List ViolationCode → ℕ → List ViolationCode
with_entropy [] score =
    if ltb score password_min_zxcvbn_score then insufficient_entropy ∷ [] else []
with_entropy (v ∷ vs) score = v ∷ vs

-- `evaluatePassword` of a password that is not empty, from its hard violations and its score.
unfoldable pub evaluate_scored : List ViolationCode → ℕ → EvaluationResult
unfolding map_score_to_level compute_fill_ratio is_acceptable_level with_entropy
evaluate_scored hard score =
    let violated = not (is_empty hard) in
    let level = map_score_to_level score violated in
    let violations = with_entropy hard score in
    let acceptable = is_acceptable_level level score violations in
    record {
      level = level;
      score = score;
      fill_ratio = compute_fill_ratio score violated;
      violations = violations;
      feedback = feedback_of violations acceptable;
      is_acceptable = acceptable;
    }

module _ (is_space : ℕ → Bool) (lower : Text → Text) (is_common : Text → Bool)
    (score_password : Text → List Text → ℕ) where
  abbrev pub given : Option Text → List Text
  given none = []
  given (some []) = []
  given (some (c ∷ cs)) = (c ∷ cs) ∷ []

  -- `evaluatePassword`; `score_password` is the score that zxcvbn gives.
  unfoldable pub evaluate_password : Text → PasswordContext → EvaluationResult
  unfolding evaluate_scored check_hard_rules
  evaluate_password [] context = record {
    level = poor;
    score = 0;
    fill_ratio = 0;
    violations = min_length ∷ [];
    feedback = violation_key min_length;
    is_acceptable = false;
  }
  evaluate_password (c ∷ cs) context =
      evaluate_scored (check_hard_rules is_space lower is_common (c ∷ cs) context)
        (score_password (c ∷ cs) (given context.email ++ given context.username))
