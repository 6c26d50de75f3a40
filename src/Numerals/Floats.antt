-- ===== src/Numerals/Floats.antt =====
-- The texts that Python's `float(text)` reads, and which of them it reads as zero. A number is kept as
-- the text that gives it; one too small for a float is not zero here.
use dds_rtps.Prelude.{
  ℕ, Bool, Option, Text, [], codes, false, if◌then◌else◌, none, some, text_eq, true, ◌&&◌, ◌==◌,
  ◌||◌, ◌∷◌,
}
use dds_rtps.Numerals.{read_digits}
use dds_rtps.Texts.{lower}
use dds_rtps.Texts.Edit.{strip}

-- The text before and behind the first of the characters of a class
split_first : (ℕ → Bool) → Text → Text × Option Text
split_first c [] = ([], none)
split_first c (d ∷ text) =
    let more = split_first c text in if c d then ([], some text) else (d ∷ more.0, more.1)

abbrev without_sign : Text → Text
without_sign [] = []
without_sign (c ∷ text) = if c == b'-' || c == b'+' then text else c ∷ text

-- The number that the digits on one side of the point give; no digits are allowed there.
abbrev digits_or_none : Text → Option ℕ
digits_or_none [] = some 0
digits_or_none (c ∷ text) = read_digits 10 0 false (c ∷ text)

-- Is the number of the digits before and behind the point zero, where it is one?
abbrev both_zero : Option ℕ → Option ℕ → Option Bool
both_zero none b = none
both_zero (some a) none = none
both_zero (some a) (some b) = some (a == 0 && b == 0)

-- The two sides of the point; one of them has a digit.
abbrev sides_zero : Text → Option Text → Option Bool
sides_zero front none = elim (read_digits 10 0 false front) [ some n ↦ some (n == 0) | none ↦ none ]
sides_zero [] (some []) = none
sides_zero [] (some (c ∷ frac)) = both_zero (some 0) (digits_or_none (c ∷ frac))
sides_zero (c ∷ front) (some frac) = both_zero (digits_or_none (c ∷ front)) (digits_or_none frac)

abbrev has_exponent : Option Text → Bool
has_exponent none = true
has_exponent (some text) = elim (read_digits 10 0 false (without_sign text)) [
  | some n ↦ true
  | none ↦ false
]

mantissa_zero : Text × Option Text → Option Bool
unfolding split_first read_digits
mantissa_zero (front, exponent) =
    let sides = split_first (λ c. c == b'.') front in
    if has_exponent exponent then sides_zero sides.0 sides.1 else none

-- Whether the number is zero; none for the ValueError
unfoldable pub float_is_zero : Text → Option Bool
unfolding mantissa_zero strip text_eq lower
float_is_zero s =
    let unsigned = without_sign (lower (strip s)) in
    if text_eq unsigned (codes "inf")
      || text_eq unsigned (codes "infinity")
      || text_eq unsigned (codes "nan")
    then some false
    else mantissa_zero (split_first (λ c. c == b'e') unsigned)
