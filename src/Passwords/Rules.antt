-- ===== src/Passwords/Rules.antt =====
-- packages/nayft-password-policy/src/hardRules.ts, constants.ts and violations.ts. A text is the list
-- of its code units.
use nayft_backend.Common.{
  ℕ, Bool, true, false, not, ◌&&◌, ◌||◌, ◌==◌, ltb, leb, if◌then◌else◌, List, [], ◌∷◌, ◌++◌, Option,
  none, some, length,
}

abbrev pub Text : Type 0
Text = List ℕ

abbrev pub password_min_length : ℕ
password_min_length = 12

abbrev pub password_recommended_length : ℕ
password_recommended_length = 14

abbrev pub password_max_length : ℕ
password_max_length = 128

-- `ViolationCode`.
pub data ViolationCode : Type 0 where
  min_length max_length whitespace common_password contains_email contains_username repeated_chars
        insufficient_entropy :
      ViolationCode

pub record PasswordContext : Type 0 where
  pub email : Option Text
  pub username : Option Text

abbrev pub text_eq : Text → Text → Bool
text_eq [] [] = true
text_eq [] (d ∷ ds) = false
text_eq (c ∷ cs) [] = false
text_eq (c ∷ cs) (d ∷ ds) = (c == d) && text_eq cs ds

abbrev pub starts_with : Text → Text → Bool
starts_with t [] = true
starts_with [] (d ∷ ds) = false
starts_with (c ∷ cs) (d ∷ ds) = (c == d) && starts_with cs ds

-- `text.includes(part)`, the text first.
unfoldable pub includes : Text → Text → Bool
includes [] part = starts_with [] part
includes (c ∷ cs) part = starts_with (c ∷ cs) part || includes cs part

-- `email.split('@')[0]`.
abbrev pub local_part : Text → Text
local_part [] = []
local_part (c ∷ cs) = let rest = local_part cs in if c == 64 then [] else c ∷ rest

-- The units that `.` does not match.
abbrev pub is_line_end : ℕ → Bool
is_line_end c = (c == 10) || (c == 13) || (c == 8232) || (c == 8233)

abbrev pub same_six : Text → Bool
same_six (a ∷ b ∷ c ∷ d ∷ e ∷ f ∷ t) =
    not (is_line_end a) && (a == b) && (a == c) && (a == d) && (a == e) && (a == f)
same_six t = false

-- `REPEATED_CHARS_REGEX.test(text)`: one unit six times in a row.
unfoldable pub has_repeated_chars : Text → Bool
has_repeated_chars [] = false
has_repeated_chars (c ∷ cs) = same_six (c ∷ cs) || has_repeated_chars cs

abbrev pub when : Bool → ViolationCode → List ViolationCode
when b v = if b then v ∷ [] else []

-- `is_space` is the class of units that `trim` takes off, `lower` is `toLowerCase`, `is_common` the
-- look-up in the list of common passwords.
module _ (is_space : ℕ → Bool) (lower : Text → Text) (is_common : Text → Bool) where
  abbrev pub trim_start : Text → Text
  trim_start [] = []
  trim_start (c ∷ cs) = let rest = trim_start cs in if is_space c then rest else c ∷ cs

  abbrev pub add_unit : ℕ → Text → Text
  add_unit c [] = if is_space c then [] else c ∷ []
  add_unit c (d ∷ ds) = c ∷ d ∷ ds

  abbrev pub trim_end : Text → Text
  trim_end [] = []
  trim_end (c ∷ cs) = add_unit c (trim_end cs)

  abbrev pub trim : Text → Text
  trim t = trim_end (trim_start t)

  abbrev pub normalized : Option Text → Text
  normalized none = []
  normalized (some t) = lower (trim t)

  -- A context that is not given, or empty, says nothing about the password.
  abbrev pub contains_email_of : Text → Text → Bool
  contains_email_of low [] = false
  contains_email_of low (c ∷ cs) =
      text_eq low (c ∷ cs)
      || (leb 3 (length (local_part (c ∷ cs))) && includes low (local_part (c ∷ cs)))

  abbrev pub contains_username_of : Text → Text → Bool
  contains_username_of low name = leb 3 (length name) && (text_eq low name || includes low name)

  -- `checkHardRules`.
  unfoldable pub check_hard_rules : Text → PasswordContext → List ViolationCode
  check_hard_rules password context =
      when (ltb (length password) password_min_length) min_length
      ++ when (ltb password_max_length (length password)) max_length
      ++ when (not (text_eq password (trim password))) whitespace
      ++ when (is_common (lower password)) common_password
      ++ when (has_repeated_chars password) repeated_chars
      ++ when (contains_email_of (lower password) (normalized context.email)) contains_email
      ++ when (contains_username_of (lower password) (normalized context.username))
          contains_username
