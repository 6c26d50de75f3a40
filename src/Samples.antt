-- ===== src/Samples.antt =====
-- The regular expressions of test_suite_functions.py and rtps_test_utilities.py that read a printed
-- sample, and `no_check` and `basic_check` of rtps_test_utilities.py.
pub mod Laws
use mathlib.Core.Option
use mathlib.Core.List.{foldl}
use dds_rtps.Prelude.{
  ℕ, List, Option, Text, [], if◌then◌else◌, none, some, ◌*◌, ◌+◌, ◌-◌, ◌==◌, ◌∷◌,
}
use dds_rtps.ReturnCode.{ReturnCode, data_not_correct, data_not_received, ok}
use dds_rtps.Regex.{Match, Pattern, chr, digit, group, literal, many, one, search_text, space, word}

-- `int(group)` of a text of digits
unfoldable pub to_int : Text → ℕ
to_int = foldl (λ n c. n * 10 + (c - b'0')) 0

-- `[0-9]+ [0-9]+ \[([0-9]+)\]`
abbrev pub size_pattern : Pattern
size_pattern =
    many digit ∷ chr b' ' ∷ many digit ∷ chr b' ' ∷ chr b'[' ∷ group digit ∷ chr b']' ∷ []

-- `\w\s+\w+\s+[0-9]+ [0-9]+ \[([0-9]+)\]`
abbrev pub sample_pattern : Pattern
sample_pattern = one word ∷ many space ∷ many word ∷ many space ∷ size_pattern

-- `\w\s+(\w+)\s+[0-9]+ [0-9]+ \[[0-9]+\]`
abbrev pub color_pattern : Pattern
color_pattern =
    one word
    ∷ many space
    ∷ group word
    ∷ many space
    ∷ many digit
    ∷ chr b' '
    ∷ many digit
    ∷ chr b' '
    ∷ chr b'['
    ∷ many digit
    ∷ chr b']'
    ∷ []

-- `\w+\s+(\w+)\s+[0-9]+\s+[0-9]+\s+\[([0-9]+)\]`
abbrev pub instance_pattern : Pattern
instance_pattern =
    many word
    ∷ many space
    ∷ group word
    ∷ many space
    ∷ many digit
    ∷ many space
    ∷ many digit
    ∷ many space
    ∷ chr b'['
    ∷ group digit
    ∷ chr b']'
    ∷ []

-- `\w+\s+(\w+)\s+` and then a literal
abbrev pub state_pattern : Text → Pattern
state_pattern state = many word ∷ many space ∷ group word ∷ many space ∷ literal state

-- `\w+\s+\w+\s+[0-9]+\s+[0-9]+\s+\[[0-9]+\]\s+\{([0-9]+)\}`
abbrev pub large_pattern : Pattern
large_pattern =
    many word
    ∷ many space
    ∷ many word
    ∷ many space
    ∷ many digit
    ∷ many space
    ∷ many digit
    ∷ many space
    ∷ chr b'['
    ∷ many digit
    ∷ chr b']'
    ∷ many space
    ∷ chr b'{'
    ∷ group digit
    ∷ chr b'}'
    ∷ []

-- `(\w+)\s+(\w+)\s+[0-9]+\s+[0-9]+\s+\[[0-9]+\]`
abbrev pub topic_pattern : Pattern
topic_pattern =
    group word
    ∷ many space
    ∷ group word
    ∷ many space
    ∷ many digit
    ∷ many space
    ∷ many digit
    ∷ many space
    ∷ chr b'['
    ∷ many digit
    ∷ chr b']'
    ∷ []

-- `group(1)`; a pattern with no group has none.
abbrev pub first_group : Match → Option Text
first_group m = elim m.groups [ [] ↦ none | g ∷ _ ↦ some g ]

-- `int(sub_string.group(1))` of `re.search`, or `none` where the pattern is not found
unfoldable pub search_int : Pattern → Text → Option ℕ
unfolding search_text to_int word space Option.bind
search_int p s = Option.bind (search_text p s) (λ m. Option.map to_int (first_group m))

unfoldable pub search_group : Pattern → Text → Option Text
unfolding search_text word space Option.bind
search_group p s = Option.bind (search_text p s) first_group

-- A sample of an instance: its color and its size, which the publisher counts up.
pub record Sample : Type 0 where
  pub color : Text
  pub size : ℕ

sample_of : List Text → Option Sample
sample_of (color ∷ size ∷ _) = some (record { color = color; size = to_int size })
sample_of _ = none

-- `group(1)` and `int(group(2))`
unfoldable pub search_sample : Text → Option Sample
unfolding search_text sample_of to_int word space Option.bind
search_sample s = Option.bind (search_text instance_pattern s) (λ m. sample_of m.groups)

unfoldable pub no_check : Text → ReturnCode
no_check text = ok

-- The code for the size of the first sample, if there is one.
abbrev pub basic_code : Option ℕ → ReturnCode
basic_code none = data_not_received
basic_code (some size) = if size == 0 then data_not_correct else ok

-- `text` is `child_sub.before + child_sub.after`.
unfoldable pub basic_check : Text → ReturnCode
unfolding search_int
basic_check text = basic_code (search_int sample_pattern text)
