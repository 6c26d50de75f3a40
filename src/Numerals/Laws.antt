-- ===== src/Numerals/Laws.antt =====
-- What is printed is read back.
use dds_rtps.Prelude.{
  ℕ, Bool, Bool-cases, Text, [], ap, arith, codes, false, inl, inr, length, ltb, refl, some, suc,
  text_eq, true, zero, ◌%◌, ◌*◌, ◌++◌, ◌+◌, ◌-◌, ◌/◌, ◌<◌, ◌==◌, ◌∙◌, ◌∷◌, ◌≡◌, ◌≢◌,
}
use dds_rtps.Numerals.{
  digit_value, hex, hex_digit, hex_from, int_of_text, padded_hex, plus, read_digits, read_prefixed,
  read_signed, read_unsigned, signed,
}
use dds_rtps.Regex.{space}
use dds_rtps.Texts.{lower}
use dds_rtps.Texts.Edit.{zeros}
use dds_rtps.Texts.Plain.{IsPlain, IsPlain-append, IsPlain-zeros, strip-IsPlain}

digit_value-hex_digit : (d : ℕ) → d < 16 → digit_value 16 (hex_digit d) ≡ some d
unfolding digit_value
digit_value-hex_digit d lt = ground arith

hex_digit-ne-underscore : (d : ℕ) → d < 16 → (hex_digit d == b'_') ≡ false
hex_digit-ne-underscore d lt = ground arith

read_digits-step :
    (n d : ℕ) (after : Bool) (text : Text)
    → d < 16
    → read_digits 16 n after (hex_digit d ∷ text) ≡ read_digits 16 (n * 16 + d) true text
unfolding read_digits
read_digits-step n d after text lt =
    rw (hex_digit-ne-underscore d lt, digit_value-hex_digit d lt) refl

-- The digits of m, read before others
read_digits-hex_from :
    (fuel m : ℕ) (after : Bool) (text : Text)
    → m < fuel
    → read_digits 16 0 after (hex_from fuel m text) ≡ read_digits 16 m true text
unfolding hex_from
read_digits-hex_from zero m after text lt = elim (empty m lt) [ ]
  where
    empty : (m : ℕ) → m < 0 → ⊥
    empty m lt = omega arith
read_digits-hex_from (suc fuel) m after text lt = elim (Bool-cases (ltb m 16)) [
  | inl e ↦ rw e (
      read_digits-step 0 m after text (ground arith)
      ∙ ap (λ k. read_digits 16 k true text) (omega arith))
  | inr e ↦ rw e (
      read_digits-hex_from fuel (m / 16) after (hex_digit (m % 16) ∷ text) (ground arith)
      ∙ read_digits-step (m / 16) (m % 16) true text (omega arith)
      ∙ ap (λ k. read_digits 16 k true text) (omega arith))
]

read_digits-zeros :
    (k : ℕ) (text : Text) → read_digits 16 0 true (zeros k ++ text) ≡ read_digits 16 0 true text
unfolding zeros
read_digits-zeros zero text = refl
read_digits-zeros (suc k) text =
    read_digits-step 0 0 true (zeros k ++ text) (omega arith) ∙ read_digits-zeros k text

space-hex_digit : (d : ℕ) → d < 16 → space (hex_digit d) ≡ false
unfolding space
space-hex_digit d lt = ground arith

hex_from-IsPlain : (fuel m : ℕ) (text : Text) → IsPlain text → IsPlain (hex_from fuel m text)
unfolding hex_from
hex_from-IsPlain zero m text h = h
hex_from-IsPlain (suc fuel) m text h = elim (Bool-cases (ltb m 16)) [
  | inl e ↦ rw e (space-hex_digit m (ground arith), h)
  | inr e ↦ rw e (
      hex_from-IsPlain fuel (m / 16) (hex_digit (m % 16) ∷ text)
        (space-hex_digit (m % 16) (omega arith), h))
]

read_prefixed-filled :
    (text : Text) (n : ℕ)
    → read_digits 16 0 true text ≡ some n
    → text ≢ []
    → read_prefixed 16 text ≡ some n
read_prefixed-filled [] n e ne = absurd (ne refl)
read_prefixed-filled (c ∷ text) n e ne = e

hex_from-ne-nil : (fuel m : ℕ) (text : Text) → m < fuel → hex_from fuel m text ≢ []
unfolding hex_from
hex_from-ne-nil zero m text lt = omega arith
hex_from-ne-nil (suc fuel) m text lt = elim (Bool-cases (ltb m 16)) [
  | inl e ↦ rw e (λ q. cc q)
  | inr e ↦ rw e (hex_from-ne-nil fuel (m / 16) (hex_digit (m % 16) ∷ text) (ground arith))
]

append-ne-nil : (a b : Text) → b ≢ [] → a ++ b ≢ []
append-ne-nil [] b ne = ne
append-ne-nil (c ∷ a) b ne = λ e. cc e

read_unsigned-prefix : (text : Text) → read_unsigned 16 (b'0' ∷ b'x' ∷ text) ≡ read_prefixed 16 text
unfolding read_unsigned lower text_eq
read_unsigned-prefix text = refl

-- The digits behind the prefix, read whole
read_prefixed-padded : (k n : ℕ) → read_prefixed 16 (zeros k ++ hex n) ≡ some n
unfolding hex read_digits
read_prefixed-padded k n =
    read_prefixed-filled (zeros k ++ hex n) n
      (read_digits-zeros k (hex n) ∙ read_digits-hex_from (suc n) n true [] (omega arith))
      (append-ne-nil (zeros k) (hex n) (hex_from-ne-nil (suc n) n [] (omega arith)))

padded-IsPlain : (k n : ℕ) → IsPlain (b'0' ∷ b'x' ∷ (zeros k ++ hex n))
unfolding hex space
padded-IsPlain k n = (
  refl,
  (refl, IsPlain-append (zeros k) (hex n) (IsPlain-zeros k) (hex_from-IsPlain (suc n) n [] tt)),
)

read_signed-prefix :
    (base : ℕ) (text : Text)
    → read_signed base (b'0' ∷ text) ≡ signed plus (read_unsigned base (b'0' ∷ text))
unfolding read_signed
read_signed-prefix base text = refl

pub int_of_text-padded_hex :
    (w n : ℕ) → int_of_text 16 (codes "0x" ++ padded_hex w (plus n)) ≡ some (plus n)
unfolding int_of_text padded_hex
int_of_text-padded_hex w n =
    let k = w - length (hex n) in
    ap (read_signed 16) (strip-IsPlain (b'0' ∷ b'x' ∷ (zeros k ++ hex n)) (padded-IsPlain k n))
    ∙ read_signed-prefix 16 (b'x' ∷ (zeros k ++ hex n))
    ∙ ap (signed plus) (read_unsigned-prefix (zeros k ++ hex n) ∙ read_prefixed-padded k n)
