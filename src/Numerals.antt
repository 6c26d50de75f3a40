-- ===== src/Numerals.antt =====
-- Python's `int(text, base)` and the printing of its integers.
pub mod Floats
pub mod Laws
pub mod Decimals
use dds_rtps.Prelude.{
  ℕ, Bool, Option, Text, [], codes, false, if◌then◌else◌, leb, length, ltb, none, not, some, suc,
  text_eq, true, zero, ◌%◌, ◌&&◌, ◌*◌, ◌++◌, ◌+◌, ◌-◌, ◌/◌, ◌==◌, ◌∷◌,
}
use dds_rtps.Texts.{decimal, in_text, lower}
use dds_rtps.Texts.Edit.{strip, zeros}

-- An integer: n or -n.
pub data Integer : Type 0 where
  plus minus : ℕ → Integer

-- The value of a digit, in a base of at most 16.
unfoldable pub digit_value : ℕ → ℕ → Option ℕ
digit_value base c =
    let v =
      if leb b'0' c && leb c b'9'
      then c - 48
      else if leb b'a' c && leb c b'f'
      then c - 87
      else if leb b'A' c && leb c b'F'
      then c - 55
      else 16 in
    if ltb v base then some v else none

-- Digits with single underscores between them, behind those with value n. `after` tells whether a
-- digit or the prefix stands before, as an underscore and the end need.
unfoldable pub read_digits : ℕ → ℕ → Bool → Text → Option ℕ
unfolding digit_value
read_digits base n after [] = if after then some n else none
read_digits base n after (c ∷ text) =
    if c == b'_'
    then elim after [ true ↦ read_digits base n false text | false ↦ none ]
    else elim (digit_value base c) [
      | some d ↦ read_digits base (n * base + d) true text
      | none ↦ none
    ]

-- The digits behind a prefix such as `0x`.
abbrev read_prefixed : ℕ → Text → Option ℕ
read_prefixed base [] = none
read_prefixed base (c ∷ text) = read_digits base 0 true (c ∷ text)

abbrev is_zero_or_none : Option ℕ → Bool
is_zero_or_none none = true
is_zero_or_none (some n) = n == 0

-- Without a sign and in base 16 a prefix is allowed; in base 0 it gives the base, and a decimal
-- number other than zero does not begin with a zero.
unfoldable pub read_unsigned : ℕ → Text → Option ℕ
unfolding read_digits in_text
read_unsigned base (z ∷ p ∷ text) =
    let prefix = lower (p ∷ []) in
    if base == 16
    then if z == b'0' && text_eq prefix (codes "x")
      then read_prefixed 16 text
      else read_digits 16 0 false (z ∷ p ∷ text)
    else if base == 0
    then if z == b'0' && text_eq prefix (codes "x")
      then read_prefixed 16 text
      else if z == b'0' && text_eq prefix (codes "o")
      then read_prefixed 8 text
      else if z == b'0' && text_eq prefix (codes "b")
      then read_prefixed 2 text
      else if z == b'0' && not (is_zero_or_none (read_digits 10 0 false (z ∷ p ∷ text)))
      then none
      else read_digits 10 0 false (z ∷ p ∷ text)
    else read_digits base 0 false (z ∷ p ∷ text)
read_unsigned base text = read_digits (if base == 0 then 10 else base) 0 false text

abbrev pub signed : (ℕ → Integer) → Option ℕ → Option Integer
signed f none = none
signed f (some n) = some (f n)

unfoldable pub read_signed : ℕ → Text → Option Integer
unfolding read_unsigned
read_signed base [] = none
read_signed base (c ∷ text) =
    if c == b'-'
    then signed minus (read_unsigned base text)
    else if c == b'+'
    then signed plus (read_unsigned base text)
    else signed plus (read_unsigned base (c ∷ text))

-- `int(text, base)`; none for its ValueError
unfoldable pub int_of_text : ℕ → Text → Option Integer
unfolding read_signed strip
int_of_text base text = read_signed base (strip text)

abbrev pub hex_digit : ℕ → ℕ
hex_digit d = if ltb d 10 then 48 + d else 87 + d

unfoldable pub hex_from : ℕ → ℕ → Text → Text
hex_from zero n rest = rest
hex_from (suc fuel) n rest =
    let more = hex_from fuel (n / 16) (hex_digit (n % 16) ∷ rest) in
    if ltb n 16 then hex_digit n ∷ rest else more

-- `f"{n:x}"` of a natural number
unfoldable pub hex : ℕ → Text
unfolding hex_from
hex n = hex_from (suc n) n []

-- `f"{k:0wx}"`
unfoldable pub padded_hex : ℕ → Integer → Text
unfolding hex zeros
padded_hex w (plus n) = zeros (w - length (hex n)) ++ hex n
padded_hex w (minus n) =
    if n == 0
    then zeros (w - length (hex n)) ++ hex n
    else b'-' ∷ (zeros (w - suc (length (hex n))) ++ hex n)

-- `str(k)`
unfoldable pub int_text : Integer → Text
unfolding decimal
int_text (plus n) = decimal n
int_text (minus n) = if n == 0 then decimal 0 else b'-' ∷ decimal n

-- `k == m`
unfoldable pub same_int : Integer → Integer → Bool
same_int (plus a) (plus b) = a == b
same_int (minus a) (minus b) = a == b
same_int (plus a) (minus b) = a == 0 && b == 0
same_int (minus a) (plus b) = a == 0 && b == 0
