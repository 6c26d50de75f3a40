-- ===== src/Numerals/Decimals.antt =====
-- The decimal digits that `str` prints, as `int` reads them.
use dds_rtps.Prelude.{
  ℕ, All, Bool, Bool-cases, Text, [], ap, arith, false, inl, inr, ltb, refl, some, suc, true, zero,
  ◌%◌, ◌*◌, ◌+◌, ◌/◌, ◌<◌, ◌==◌, ◌∙◌, ◌∷◌, ◌≡◌,
}
use dds_rtps.Numerals.{
  digit_value, int_of_text, plus, read_digits, read_signed, read_unsigned, signed,
}
use dds_rtps.Regex.{digit, space}
use dds_rtps.Texts.{decimal, digits}
use dds_rtps.Texts.Plain.{IsPlain, strip-IsPlain}

abbrev pub IsDigits : Text → Type 0
IsDigits s = All (λ c. digit c ≡ true) s

digit-char : (d : ℕ) → d < 10 → digit (b'0' + d) ≡ true
unfolding digit
digit-char d lt = ground arith

digit_value-char : (d : ℕ) → d < 10 → digit_value 10 (b'0' + d) ≡ some d
unfolding digit_value
digit_value-char d lt = ground arith

read_digits-char :
    (n d : ℕ) (after : Bool) (text : Text)
    → d < 10
    → read_digits 10 n after ((b'0' + d) ∷ text) ≡ read_digits 10 (n * 10 + d) true text
unfolding read_digits
read_digits-char n d after text lt = rw (plain d lt, digit_value-char d lt) refl
  where
    plain : (d : ℕ) → d < 10 → (b'0' + d == b'_') ≡ false
    plain d lt = ground arith

read_digits-digits :
    (fuel m : ℕ) (after : Bool) (text : Text)
    → m < fuel
    → read_digits 10 0 after (digits fuel m text) ≡ read_digits 10 m true text
unfolding digits
read_digits-digits zero m after text lt = elim (empty m lt) [ ]
  where
    empty : (m : ℕ) → m < 0 → ⊥
    empty m lt = omega arith
read_digits-digits (suc fuel) m after text lt = elim (Bool-cases (ltb m 10)) [
  | inl e ↦ rw e (
      read_digits-char 0 m after text (ground arith)
      ∙ ap (λ k. read_digits 10 k true text) (omega arith))
  | inr e ↦ rw e (
      read_digits-digits fuel (m / 10) after ((b'0' + m % 10) ∷ text) (ground arith)
      ∙ read_digits-char (m / 10) (m % 10) true text (omega arith)
      ∙ ap (λ k. read_digits 10 k true text) (omega arith))
]

digits-IsDigits : (fuel m : ℕ) (text : Text) → IsDigits text → IsDigits (digits fuel m text)
unfolding digits
digits-IsDigits zero m text h = h
digits-IsDigits (suc fuel) m text h = elim (Bool-cases (ltb m 10)) [
  | inl e ↦ rw e (digit-char m (ground arith), h)
  | inr e ↦ rw e (
      digits-IsDigits fuel (m / 10) ((b'0' + m % 10) ∷ text) (digit-char (m % 10) (omega arith), h))
]

pub decimal-IsDigits : (n : ℕ) → IsDigits (decimal n)
unfolding decimal
decimal-IsDigits n = digits-IsDigits (suc n) n [] tt

digit-space : (c : ℕ) → digit c ≡ true → space c ≡ false
unfolding digit space
digit-space c h = ground arith

IsDigits-IsPlain : (s : Text) → IsDigits s → IsPlain s
IsDigits-IsPlain [] h = tt
IsDigits-IsPlain (c ∷ s) (h, t) = (digit-space c h, IsDigits-IsPlain s t)

-- Digits carry no sign.
read_signed-IsDigits : (s : Text) → IsDigits s → read_signed 10 s ≡ signed plus (read_unsigned 10 s)
unfolding read_signed read_unsigned read_digits digit
read_signed-IsDigits [] h = refl
read_signed-IsDigits (c ∷ s) (h, t) = ground arith

read_unsigned-lem : (s : Text) → read_unsigned 10 s ≡ read_digits 10 0 false s
unfolding read_unsigned
read_unsigned-lem [] = refl
read_unsigned-lem (c ∷ []) = refl
read_unsigned-lem (c ∷ d ∷ s) = refl

pub int_of_text-decimal : (n : ℕ) → int_of_text 10 (decimal n) ≡ some (plus n)
unfolding int_of_text decimal
int_of_text-decimal n =
    ap (read_signed 10)
      (strip-IsPlain (decimal n) (IsDigits-IsPlain (decimal n) (decimal-IsDigits n)))
    ∙ read_signed-IsDigits (decimal n) (decimal-IsDigits n)
    ∙ ap (signed plus)
        (read_unsigned-lem (decimal n) ∙ read_digits-digits (suc n) n false [] (omega arith))
