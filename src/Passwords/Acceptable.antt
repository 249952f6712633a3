-- ===== src/Passwords/Acceptable.antt =====
-- Which passwords `evaluatePassword` accepts (packages/nayft-password-policy/src/evaluatePassword.ts).
use nayft_backend.Common.{
  ℕ, ◌≤◌, ◌≡◌, ◌↔◌, refl, sym, ap, ◌∙◌, Bool, true, false, not, ◌&&◌, ltb, leb, List, [], ◌∷◌, ◌++◌,
  length, arith, ◌≢◌, ◌+◌,
}
use nayft_backend.Passwords.Rules.{
  Text, ViolationCode, min_length, max_length, whitespace, common_password, contains_email,
  contains_username, repeated_chars, PasswordContext, password_min_length, password_max_length,
  text_eq, trim, has_repeated_chars, contains_email_of, contains_username_of, normalized, when,
  check_hard_rules, local_part, includes, is_line_end,
}
use nayft_backend.Passwords.Texts.{
  length-text_eq, includes_part, has_repeated_chars_run, trim_first, trim_last,
}
use nayft_backend.Passwords.Evaluation.{
  is_empty, evaluate_scored, evaluate_password, given, map_score_to_level, is_acceptable_level,
  with_entropy,
}

seven_empty :
    (a b c d e f g : Bool)
    → is_empty (
        when a min_length
        ++ when b max_length
        ++ when c whitespace
        ++ when d common_password
        ++ when e repeated_chars
        ++ when f contains_email
        ++ when g contains_username)
      ≡ (not a && (not b && (not c && (not d && (not e && (not f && not g))))))
seven_empty true b c d e f g = refl
seven_empty false true c d e f g = refl
seven_empty false false true d e f g = refl
seven_empty false false false true e f g = refl
seven_empty false false false false true f g = refl
seven_empty false false false false false true g = refl
seven_empty false false false false false false true = refl
seven_empty false false false false false false false = refl

-- The seven tests and that of the score, as Booleans and as propositions.
abbrev passes : ℕ → Bool → Bool → Bool → Bool → Bool → ℕ → Bool
passes l trimmed common repeated email username score =
    (not (ltb l 12)
      && (not (ltb 128 l)
          && (not (not trimmed) && (not common && (not repeated && (not email && not username))))))
    && leb 3 score

passes_iff :
    (l : ℕ) (t c r e u : Bool) (score : ℕ)
    → (passes l t c r e u score ≡ true) ↔ (
        (12 ≤ l)
        × (l ≤ 128)
        × (t ≡ true)
        × (c ≡ false)
        × (r ≡ false)
        × (e ≡ false)
        × (u ≡ false)
        × (3 ≤ score))
passes_iff l t c r e u score = ground arith

acceptable-scored :
    (hard : List ViolationCode) (score : ℕ)
    → (evaluate_scored hard score).is_acceptable ≡ (is_empty hard && leb 3 score)
unfolding evaluate_scored map_score_to_level is_acceptable_level with_entropy
acceptable-scored [] score = ground arith
acceptable-scored (v ∷ vs) score = ground arith

violations-scored :
    (hard : List ViolationCode) (score : ℕ)
    → is_empty (evaluate_scored hard score).violations ≡ (is_empty hard && leb 3 score)
unfolding evaluate_scored with_entropy
violations-scored [] score = ground arith
violations-scored (v ∷ vs) score = refl

-- What an accepted password is sure to be. The mail address and the user's name are without spaces at
-- their ends and in lower case.
pub record IsSafe (is_space : ℕ → Bool) (lower : Text → Text) (is_common : Text → Bool) (score : ℕ)
    (password email username : Text) : Type 0 where
  pub long_enough : 12 ≤ length password
  pub short_enough : length password ≤ 128
  pub strong_enough : 3 ≤ score
  pub uncommon : is_common (lower password) ≡ false
  pub trimmed_start : (c : ℕ) (t : Text) → is_space c ≡ true → password ≢ c ∷ t
  pub trimmed_end : (c : ℕ) (t : Text) → is_space c ≡ true → password ≢ t ++ c ∷ []
  pub no_run :
      (a b : Text) (c : ℕ) → is_line_end c ≡ false → password ≢ a ++ c ∷ c ∷ c ∷ c ∷ c ∷ c ∷ b
  pub no_local_part :
      (a b : Text) → 3 ≤ length (local_part email) → lower password ≢ a ++ local_part email ++ b
  pub no_username : (a b : Text) → 3 ≤ length username → lower password ≢ a ++ username ++ b

module _ (is_space : ℕ → Bool) (lower : Text → Text) (is_common : Text → Bool) where
  trimmed-first :
      (p : Text) (c : ℕ) (t : Text)
      → text_eq p (trim is_space lower is_common p) ≡ true
      → is_space c ≡ true
      → p ≢ c ∷ t
  trimmed-first p c t e space h = omega (
    arith,
    ap length h,
    length-text_eq p (trim is_space lower is_common p) e,
    ap (λ u. length (trim is_space lower is_common u)) h,
    trim_first is_space lower is_common c t space,
  )

  length-last : (c : ℕ) (t : Text) → length (t ++ c ∷ []) ≡ length t + 1
  length-last c [] = refl
  length-last c (d ∷ t) = omega (arith, length-last c t)

  trimmed-last :
      (p : Text) (c : ℕ) (t : Text)
      → text_eq p (trim is_space lower is_common p) ≡ true
      → is_space c ≡ true
      → p ≢ t ++ c ∷ []
  trimmed-last p c t e space h = omega (
    arith,
    ap length h,
    length-last c t,
    length-text_eq p (trim is_space lower is_common p) e,
    ap (λ u. length (trim is_space lower is_common u)) h,
    trim_last is_space lower is_common c t space,
  )

  no_run-of :
      (p a b : Text) (c : ℕ)
      → has_repeated_chars p ≡ false
      → is_line_end c ≡ false
      → p ≢ a ++ c ∷ c ∷ c ∷ c ∷ c ∷ c ∷ b
  no_run-of p a b c e plain h = cc (e, ap has_repeated_chars h, has_repeated_chars_run a b c plain)

  no_local_part-of :
      (low email a b : Text)
      → contains_email_of is_space lower is_common low email ≡ false
      → 3 ≤ length (local_part email)
      → low ≢ a ++ local_part email ++ b
  no_local_part-of low [] a b e long h = omega arith
  no_local_part-of low (c ∷ email) a b e long h =
      let found = includes_part a (local_part (c ∷ email)) b in
      let same = ap (λ t. includes t (local_part (c ∷ email))) h in ground (arith, found, same)

  no_username-of :
      (low name a b : Text)
      → contains_username_of is_space lower is_common low name ≡ false
      → 3 ≤ length name
      → low ≢ a ++ name ++ b
  no_username-of low name a b e long h =
      let found = includes_part a name b in
      let same = ap (λ t. includes t name) h in ground (arith, found, same)

module _ (is_space : ℕ → Bool) (lower : Text → Text) (is_common : Text → Bool)
    (score_password : Text → List Text → ℕ) where
  abbrev score_of : Text → PasswordContext → ℕ
  score_of password context = score_password password (
      given is_space lower is_common score_password context.email
      ++ given is_space lower is_common score_password context.username)

  passes_of : Text → PasswordContext → Bool
  passes_of password context =
      passes (length password) (text_eq password (trim is_space lower is_common password))
        (is_common (lower password)) (has_repeated_chars password)
        (contains_email_of is_space lower is_common (lower password)
          (normalized is_space lower is_common context.email))
        (contains_username_of is_space lower is_common (lower password)
          (normalized is_space lower is_common context.username))
        (score_of password context)

  acceptable-passes :
      (password : Text) (context : PasswordContext)
      → (evaluate_password is_space lower is_common score_password password context).is_acceptable
        ≡ passes_of password context
  unfolding evaluate_password check_hard_rules passes_of
  acceptable-passes [] context = refl
  acceptable-passes (c ∷ cs) context =
      acceptable-scored (check_hard_rules is_space lower is_common (c ∷ cs) context)
        (score_of (c ∷ cs) context)
      ∙ ap (λ x. x && leb 3 (score_of (c ∷ cs) context))
          (seven_empty (ltb (length (c ∷ cs)) password_min_length)
            (ltb password_max_length (length (c ∷ cs)))
            (not (text_eq (c ∷ cs) (trim is_space lower is_common (c ∷ cs))))
            (is_common (lower (c ∷ cs))) (has_repeated_chars (c ∷ cs))
            (contains_email_of is_space lower is_common (lower (c ∷ cs))
              (normalized is_space lower is_common context.email))
            (contains_username_of is_space lower is_common (lower (c ∷ cs))
              (normalized is_space lower is_common context.username)))

  -- A password that is accepted has 12 to 128 units, a score of at least 3, and no space at either end;
  -- in lower case it is not on the list of common passwords. No unit but a line end stands six times in
  -- a row in it. In lower case it does not hold the part of the mail address before the first at sign,
  -- nor the user's name, where these have at least three units.
  pub evaluate_password-IsSafe :
      (password : Text) (context : PasswordContext)
      → (evaluate_password is_space lower is_common score_password password context).is_acceptable
        ≡ true
      → IsSafe is_space lower is_common
          (score_of password context)
          password
          (normalized is_space lower is_common context.email)
          (normalized is_space lower is_common context.username)
  unfolding passes_of
  evaluate_password-IsSafe password context e =
      let email = normalized is_space lower is_common context.email in
      let username = normalized is_space lower is_common context.username in
      let (to, from) =
        passes_iff (length password) (text_eq password (trim is_space lower is_common password))
          (is_common (lower password)) (has_repeated_chars password)
          (contains_email_of is_space lower is_common (lower password) email)
          (contains_username_of is_space lower is_common (lower password) username)
          (score_of password context) in
      let (l, m, t, c, r, x, u, k) = to (sym (acceptable-passes password context) ∙ e) in
      record {
        long_enough = l;
        short_enough = m;
        strong_enough = k;
        uncommon = c;
        trimmed_start = λ d rest. trimmed-first is_space lower is_common password d rest t;
        trimmed_end = λ d rest. trimmed-last is_space lower is_common password d rest t;
        no_run = λ a b d. no_run-of is_space lower is_common password a b d r;
        no_local_part =
            λ a b. no_local_part-of is_space lower is_common (lower password) email a b x;
        no_username =
            λ a b. no_username-of is_space lower is_common (lower password) username a b u;
      }

  -- A password is accepted exactly when the form has no violation to show.
  pub evaluate_password-violations :
      (password : Text) (context : PasswordContext)
      → (evaluate_password is_space lower is_common score_password password context).is_acceptable
        ≡ is_empty
            (evaluate_password is_space lower is_common score_password password context).violations
  unfolding evaluate_password
  evaluate_password-violations [] context = refl
  evaluate_password-violations (c ∷ cs) context =
      let hard = check_hard_rules is_space lower is_common (c ∷ cs) context in
      acceptable-scored hard (score_of (c ∷ cs) context)
      ∙ sym (violations-scored hard (score_of (c ∷ cs) context))
