-- ===== src/Samples/Laws.antt =====
-- A text that passes `basic_check` holds a sample for each regular expression that reads samples.
use mathlib.Core.Option
use dds_rtps.Prelude.{
  ℕ, Bool-cases, List, Option-cases, Text, [], arith, if◌then◌else◌, inl, inr, length, none, refl,
  some, sym, true, ◌==◌, ◌∙◌, ◌∷◌, ◌≡◌, ◌≢◌, ◌⊎◌,
}
use dds_rtps.ReturnCode.{
  ReturnCode, data_not_correct, data_not_received, ok, same_code, same_code_iff,
}
use dds_rtps.Child.{Outcome, returned}
use dds_rtps.Regex.{Pattern, many, one, search_text, space, word}
use dds_rtps.Regex.Loosen.{
  Loosens, Occurs, Occurs-loosen, Occurs-search_text, Occurs-tail, group_count, length-search_text,
  search_text-Occurs,
}
use dds_rtps.Samples.{
  basic_check, color_pattern, instance_pattern, sample_of, sample_pattern, search_group, search_int,
  search_sample, size_pattern, to_int,
}

basic_check-Occurs : (text : Text) → basic_check text ≡ ok → Occurs sample_pattern text
unfolding basic_check search_int
basic_check-Occurs text h =
    search_text-Occurs sample_pattern text λ e. cc (rw (e, basic_check) at h)

-- The codes that `basic_check` gives.
abbrev pub IsBasic : ReturnCode → Type 0
IsBasic c = (c ≡ ok) ⊎ (c ≡ data_not_received) ⊎ (c ≡ data_not_correct)

pub basic_check-IsBasic : (text : Text) → IsBasic (basic_check text)
unfolding basic_check
basic_check-IsBasic text = ground arith

space_of_blank : (x : ℕ) → (x == b' ') ≡ true → space x ≡ true
unfolding space
space_of_blank x h = ground arith

color_pattern-Loosens : Loosens sample_pattern color_pattern
color_pattern-Loosens = (
  tt,
  (λ x t. t),
  (
    tt,
    (λ x t. t),
    (
      tt,
      (λ x t. t),
      (
        tt,
        (λ x t. t),
        (
          tt,
          (λ x t. t),
          (
            tt,
            (λ x t. t),
            (
              tt,
              (λ x t. t),
              (tt, (λ x t. t), (tt, (λ x t. t), (tt, (λ x t. t), (tt, (λ x t. t), tt)))),
            ),
          ),
        ),
      ),
    ),
  ),
)

instance_pattern-Loosens : Loosens sample_pattern instance_pattern
instance_pattern-Loosens = (
  tt,
  (λ x t. t),
  (
    tt,
    (λ x t. t),
    (
      tt,
      (λ x t. t),
      (
        tt,
        (λ x t. t),
        (
          tt,
          (λ x t. t),
          (
            tt,
            space_of_blank,
            (
              tt,
              (λ x t. t),
              (tt, space_of_blank, (tt, (λ x t. t), (tt, (λ x t. t), (tt, (λ x t. t), tt)))),
            ),
          ),
        ),
      ),
    ),
  ),
)

-- With enough groups the readers return something.
search_int-ne-none :
    (p : Pattern) (s : Text) → group_count p ≡ 1 → Occurs p s → search_int p s ≢ none
unfolding search_int
search_int-ne-none p s n o = elim (Option-cases (search_text p s)) [
  | inl missed ↦ absurd (Occurs-search_text p s o missed)
  | inr (m, hit) ↦ rw (hit, search_int) (some_first m.groups (length-search_text p s m hit ∙ n))
]
  where
    some_first :
        (gs : List Text)
        → length gs ≡ 1
        → Option.map to_int (elim gs [ [] ↦ none | g ∷ _ ↦ some g ]) ≢ none
    some_first [] h = absurd (omega arith)
    some_first (g ∷ gs) h = λ e. cc e

search_group-ne-none :
    (p : Pattern) (s : Text) → group_count p ≡ 1 → Occurs p s → search_group p s ≢ none
unfolding search_group
search_group-ne-none p s n o = elim (Option-cases (search_text p s)) [
  | inl missed ↦ absurd (Occurs-search_text p s o missed)
  | inr (m, hit) ↦ rw (hit, search_group) (some_first m.groups (length-search_text p s m hit ∙ n))
]
  where
    some_first : (gs : List Text) → length gs ≡ 1 → elim gs [ [] ↦ none | g ∷ _ ↦ some g ] ≢ none
    some_first [] h = absurd (omega arith)
    some_first (g ∷ gs) h = λ e. cc e

search_sample-ne-none : (s : Text) → Occurs instance_pattern s → search_sample s ≢ none
unfolding search_sample sample_of
search_sample-ne-none s o = elim (Option-cases (search_text instance_pattern s)) [
  | inl missed ↦ absurd (Occurs-search_text instance_pattern s o missed)
  | inr (m, hit) ↦
      rw (hit, search_sample) (some_sample m.groups (length-search_text instance_pattern s m hit))
]
  where
    some_sample : (gs : List Text) → length gs ≡ 2 → sample_of gs ≢ none
    some_sample [] h = absurd (omega arith)
    some_sample (g ∷ []) h = absurd (omega arith)
    some_sample (g ∷ g' ∷ gs) h = λ e. cc e

module _ (text : Text) (checked : basic_check text ≡ ok) where
  pub search_size_of_basic_check : search_int size_pattern text ≢ none
  search_size_of_basic_check = search_int-ne-none size_pattern text refl (
      Occurs-tail (many space) size_pattern text (
        Occurs-tail (many word) (many space ∷ size_pattern) text (
          Occurs-tail (many space) (many word ∷ many space ∷ size_pattern) text (
            Occurs-tail (one word) (many space ∷ many word ∷ many space ∷ size_pattern) text
              (basic_check-Occurs text checked)))))

  pub search_color_of_basic_check : search_group color_pattern text ≢ none
  search_color_of_basic_check = search_group-ne-none color_pattern text refl (
      Occurs-loosen sample_pattern color_pattern text color_pattern-Loosens
        (basic_check-Occurs text checked))

  pub search_sample_of_basic_check : search_sample text ≢ none
  search_sample_of_basic_check = search_sample-ne-none text (
      Occurs-loosen sample_pattern instance_pattern text instance_pattern-Loosens
        (basic_check-Occurs text checked))

-- A check returns OK only where `basic_check` does and the rest of it does.
pub checked-eq-ok :
    (c : ReturnCode) (rest : Outcome ReturnCode)
    → (if same_code c ok then rest else returned c) ≡ returned ok
    → (c ≡ ok) × (rest ≡ returned ok)
checked-eq-ok c rest e = elim (Bool-cases (same_code c ok)) [
  | inl fine ↦ ((same_code_iff c ok).0 fine, rw fine at e)
  | inr failed ↦ let bad : c ≡ ok = ground arith in cc (sym failed ∙ (same_code_iff c ok).1 bad)
]
