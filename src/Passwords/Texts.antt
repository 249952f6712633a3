-- ===== src/Passwords/Texts.antt =====
-- The searches in texts of packages/nayft-password-policy/src/hardRules.ts.
use nayft_backend.Common.{
  ℕ, ◌+◌, ◌≤◌, ◌<◌, ◌≡◌, refl, Bool, true, false, ◌==◌, [], ◌∷◌, ◌++◌, length, arith, inl, inr,
  Bool-cases,
}
use nayft_backend.Passwords.Rules.{
  Text, text_eq, starts_with, includes, is_line_end, has_repeated_chars, trim_start, add_unit,
  trim_end, trim,
}

==_refl : (c : ℕ) → (c == c) ≡ true
==_refl c = ground arith

pub text_eq_refl : (t : Text) → text_eq t t ≡ true
text_eq_refl [] = refl
text_eq_refl (c ∷ t) = rw (==_refl c) (text_eq_refl t)

pub length-text_eq : (s t : Text) → text_eq s t ≡ true → length s ≡ length t
length-text_eq [] [] e = refl
length-text_eq [] (d ∷ t) e = ground arith
length-text_eq (c ∷ s) [] e = ground arith
length-text_eq (c ∷ s) (d ∷ t) e = ground (arith, length-text_eq s t)

starts_with_self : (part b : Text) → starts_with (part ++ b) part ≡ true
starts_with_self [] [] = refl
starts_with_self [] (c ∷ b) = refl
starts_with_self (c ∷ part) b = rw (==_refl c) (starts_with_self part b)

includes_here : (t part : Text) → starts_with t part ≡ true → includes t part ≡ true
unfolding includes
includes_here [] part e = e
includes_here (c ∷ t) part e = rw e refl

-- A text includes what stands in it.
pub includes_part : (a part b : Text) → includes (a ++ part ++ b) part ≡ true
unfolding includes
includes_part [] part b = includes_here (part ++ b) part (starts_with_self part b)
includes_part (c ∷ a) part b = ground (arith, includes_part a part b)

-- A run of six is found.
pub has_repeated_chars_run :
    (a b : Text) (c : ℕ)
    → is_line_end c ≡ false
    → has_repeated_chars (a ++ c ∷ c ∷ c ∷ c ∷ c ∷ c ∷ b) ≡ true
unfolding has_repeated_chars
has_repeated_chars_run [] b c e = rw (e, ==_refl c) refl
has_repeated_chars_run (d ∷ a) b c e = ground (arith, has_repeated_chars_run a b c e)

module _ (is_space : ℕ → Bool) (lower : Text → Text) (is_common : Text → Bool) where
  length-trim_start : (t : Text) → length (trim_start is_space lower is_common t) ≤ length t
  length-trim_start [] = omega arith
  length-trim_start (c ∷ t) = ground (arith, length-trim_start t)

  length-add_unit :
      (c : ℕ) (t : Text) → length (add_unit is_space lower is_common c t) ≤ 1 + length t
  length-add_unit c [] = ground arith
  length-add_unit c (d ∷ t) = omega arith

  length-trim_end : (t : Text) → length (trim_end is_space lower is_common t) ≤ length t
  length-trim_end [] = omega arith
  length-trim_end (c ∷ t) =
      omega (arith, length-trim_end t, length-add_unit c (trim_end is_space lower is_common t))

  -- A space at the start is taken off.
  pub trim_first :
      (c : ℕ) (t : Text)
      → is_space c ≡ true
      → length (trim is_space lower is_common (c ∷ t)) < length (c ∷ t)
  trim_first c t e =
      rw e (
        omega (arith, length-trim_start t, length-trim_end (trim_start is_space lower is_common t)))

  trim_end_last :
      (c : ℕ) (t : Text)
      → is_space c ≡ true
      → length (trim_end is_space lower is_common (t ++ c ∷ [])) ≤ length t
  trim_end_last c [] e = rw e (omega arith)
  trim_end_last c (d ∷ t) e = omega (
    arith,
    trim_end_last c t e,
    length-add_unit d (trim_end is_space lower is_common (t ++ c ∷ [])),
  )

  -- A space at the end is taken off.
  pub trim_last :
      (c : ℕ) (t : Text)
      → is_space c ≡ true
      → length (trim is_space lower is_common (t ++ c ∷ [])) ≤ length t
  trim_last c [] e = rw e (omega arith)
  trim_last c (d ∷ t) e = elim (Bool-cases (is_space d)) [
    | inl space ↦ rw space (omega (arith, trim_last c t e))
    | inr other ↦ rw other (trim_end_last c (d ∷ t) e)
  ]
