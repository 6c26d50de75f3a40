-- ===== src/Junit/Tables.antt =====
-- `parse_outcome_rows` of loader.py. A match of its pattern is found without backtracking: a run of
-- characters other than `<` ends at the next `<`, and blanks end before a `<`.
pub mod Words
pub mod Roundtrip
use mathlib.Core.Option
use dds_rtps.Prelude.{
  ℕ, Bool, List, Option, Text, [], codes, if◌then◌else◌, length, none, some, suc, text_eq, zero,
  ◌-◌, ◌==◌, ◌||◌, ◌∷◌,
}
use dds_rtps.Junit.{OutcomeRow}
use dds_rtps.Texts.Edit.{lstrip, strip}

-- The text behind a prefix
unfoldable pub after_prefix : Text → Text → Option Text
after_prefix [] s = some s
after_prefix (c ∷ p) [] = none
after_prefix (c ∷ p) (d ∷ s) = if c == d then after_prefix p s else none

-- The longest run of `[^<]`, and the text behind it
unfoldable pub run_until : Text → Text × Text
run_until [] = ([], [])
run_until (c ∷ s) =
    let more = run_until s in if c == b'<' then ([], c ∷ s) else (c ∷ more.0, more.1)

abbrev pub closed : Text × Text → Option (Text × Text)
closed ([], s) = none
closed (c ∷ content, s) = Option.map (λ s'. (c ∷ content, s')) (after_prefix (codes "</th>") s)

-- `<th>([^<]+)</th>`
unfoldable pub match_cell : Text → Option (Text × Text)
unfolding after_prefix run_until
match_cell s = Option.bind (after_prefix (codes "<th>") s) (λ s'. closed (run_until s'))

-- The three cells with blanks between them
unfoldable pub match_row : Text → Option (OutcomeRow × Text)
unfolding match_cell lstrip
match_row s = Option.bind (match_cell s) (λ a. Option.bind (match_cell (lstrip a.1)) (λ b.
    Option.map (λ c. (record { role = a.0; expected = b.0; produced = c.0 }, c.1))
      (match_cell (lstrip b.1))))

-- `findall`, with the number of characters to pass over first: those of the last match
unfoldable pub find_rows : ℕ → Text → List OutcomeRow
unfolding match_row
find_rows n [] = []
find_rows (suc n) (c ∷ s) = find_rows n s
find_rows zero (c ∷ s) = elim (match_row (c ∷ s)) [
  | some m ↦ m.0 ∷ find_rows (length s - length m.1) s
  | none ↦ find_rows zero s
]

abbrev stripped : OutcomeRow → OutcomeRow
stripped r = record {
  role = strip r.role;
  expected = strip r.expected;
  produced = strip r.produced;
}

unfoldable pub is_heading : Text → Bool
unfolding text_eq
is_heading role_text = text_eq role_text [] || text_eq role_text (codes "Expected Code")

unfoldable pub keep_rows : List OutcomeRow → List OutcomeRow
unfolding is_heading strip
keep_rows [] = []
keep_rows (r ∷ rows) =
    if is_heading (strip r.role) then keep_rows rows else stripped r ∷ keep_rows rows

unfoldable pub parse_outcome_rows : Text → List OutcomeRow
unfolding find_rows keep_rows
parse_outcome_rows message = keep_rows (find_rows 0 message)
