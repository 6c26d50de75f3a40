-- ===== src/Junit/Tables/Roundtrip.antt =====
-- The rows that `run_test` writes into its message are the ones that `parse_outcome_rows` finds there.
use mathlib.Core.Option
use dds_rtps.Prelude.{
  ℕ, Bool-cases, List, Text, [], ap, append-nil, append_assoc, arith, codes, false, inl, inr,
  length, none, refl, some, subst, sym, text_eq, text_eq_iff, true, ◌++◌, ◌+◌, ◌-◌, ◌∙◌, ◌∷◌, ◌≡◌,
}
use dds_rtps.ReturnCode.{name}
use dds_rtps.Junit.{OutcomeRow}
use dds_rtps.Junit.Classify.Reports.{report_rows}
use dds_rtps.Junit.Tables.{
  after_prefix, closed, find_rows, is_heading, keep_rows, match_cell, match_row, parse_outcome_rows,
  run_until,
}
use dds_rtps.Junit.Tables.Words.{
  IsContent, all_word, all_word-IsContent, all_word-name, all_word-role_of, padded, strip-padded,
}
use dds_rtps.Regex.{space}
use dds_rtps.Report.Message.{cell_text, message_text, role_of, row_text, rows_text}
use dds_rtps.Report.Verdict.{Process, Row, publisher, subscriber}
use dds_rtps.Texts.{decimal, in_text, is_prefix}
use dds_rtps.Texts.Edit.{is_filled, lstrip}

run_until-IsContent : (s t : Text) → IsContent s → run_until (s ++ (b'<' ∷ t)) ≡ (s, b'<' ∷ t)
unfolding run_until
run_until-IsContent [] t h = refl
run_until-IsContent (c ∷ s) t (e, h) = rw (e, run_until-IsContent s t h) refl

find_rows-skip : (s t : Text) → find_rows (length s) (s ++ t) ≡ find_rows 0 t
unfolding find_rows
find_rows-skip [] [] = refl
find_rows-skip [] (c ∷ t) = refl
find_rows-skip (c ∷ s) t = find_rows-skip s t

IsContent-blank : (s : Text) → IsContent s → IsContent (s ++ codes " ")
IsContent-blank [] h = (refl, tt)
IsContent-blank (c ∷ s) (e, h) = (e, IsContent-blank s h)

match_cell-cell_text :
    (s rest : Text) → IsContent s → match_cell (cell_text s rest) ≡ some (padded s, b' ' ∷ rest)
unfolding match_cell after_prefix run_until Option.bind
match_cell-cell_text s rest h =
    let behind = codes "/th> " ++ rest in
    ap (λ u. closed (run_until (b' ' ∷ u))) (sym (append_assoc s (codes " ") (b'<' ∷ behind)))
    ∙ ap closed (run_until-IsContent (padded s) behind (refl, IsContent-blank s h))

abbrev made_row : Text → Text → Text → OutcomeRow
made_row a b c = record { role = padded a; expected = padded b; produced = padded c }

match_row-cells :
    (a b c rest : Text)
    → IsContent a
    → IsContent b
    → IsContent c
    → match_row (cell_text a (cell_text b (cell_text c rest))) ≡ some (made_row a b c, b' ' ∷ rest)
unfolding match_row lstrip space Option.bind
match_row-cells a b c rest h k l =
    rw
      (
        match_cell-cell_text a (cell_text b (cell_text c rest)) h,
        match_cell-cell_text b (cell_text c rest) k,
        match_cell-cell_text c rest l,
        match_row,
      )
      refl

-- A text that stands at the end of another one
abbrev EndsWith : Text → Text → Type 0
EndsWith u s = (front : Text) × (s ≡ front ++ u)

EndsWith-append : (a s u : Text) → EndsWith u s → EndsWith u (a ++ s)
EndsWith-append a s u (front, e) = (a ++ front, ap (λ x. a ++ x) e ∙ sym (append_assoc a front u))

length-append : (a b : Text) → length (a ++ b) ≡ length a + length b
length-append [] b = omega arith
length-append (c ∷ a) b = omega (arith, length-append a b)

-- The characters of a match are passed over.
find_rows-EndsWith : (s u : Text) → EndsWith u s → find_rows (length s - length u) s ≡ find_rows 0 u
find_rows-EndsWith s u (front, e) =
    ap (λ x. find_rows (length x - length u) x) e
    ∙ ap (λ n. find_rows n (front ++ u)) (omega (arith, length-append front u))
    ∙ find_rows-skip front u

find_rows-match :
    (c : ℕ) (s u : Text) (r : OutcomeRow)
    → match_row (c ∷ s) ≡ some (r, u)
    → EndsWith u s
    → find_rows 0 (c ∷ s) ≡ r ∷ find_rows 0 u
unfolding find_rows
find_rows-match c s u r e h = rw (e, find_rows) (ap (λ rows. r ∷ rows) (find_rows-EndsWith s u h))

find_rows-cells :
    (a b c rest : Text)
    → IsContent a
    → IsContent b
    → IsContent c
    → find_rows 0 (cell_text a (cell_text b (cell_text c rest)))
      ≡ made_row a b c ∷ find_rows 0 (b' ' ∷ rest)
find_rows-cells a b c rest h k l =
    let behind = b' ' ∷ rest in
    let third : EndsWith behind (cell_text c rest) =
      EndsWith-append (codes "<th> ") (c ++ (codes " </th>" ++ behind)) behind (
        EndsWith-append c (codes " </th>" ++ behind) behind
          (EndsWith-append (codes " </th>") behind behind ([], refl))) in
    let second : EndsWith behind (cell_text b (cell_text c rest)) =
      EndsWith-cell b (cell_text c rest) behind third in
    find_rows-match b'<' _ behind (made_row a b c) (match_row-cells a b c rest h k l) (
      EndsWith-append (codes "th> ") (a ++ (codes " </th> " ++ cell_text b (cell_text c rest)))
        behind
        (EndsWith-append a (codes " </th> " ++ cell_text b (cell_text c rest)) behind
          (EndsWith-append (codes " </th> ") (cell_text b (cell_text c rest)) behind second)))
  where
    EndsWith-cell : (s t u : Text) → EndsWith u t → EndsWith u (cell_text s t)
    EndsWith-cell s t u x =
        EndsWith-append (codes "<th> ") (s ++ (codes " </th> " ++ t)) u
          (EndsWith-append s (codes " </th> " ++ t) u (EndsWith-append (codes " </th> ") t u x))

-- The texts between the rows hold no row.
find_rows-row_text :
    (r : Row) (rest : Text)
    → IsContent (role_of r.entity)
    → IsContent (name r.expected_code)
    → IsContent (name r.code_produced)
    → find_rows 0 (row_text r rest)
      ≡ made_row (role_of r.entity) (name r.expected_code) (name r.code_produced) ∷ find_rows 0 rest
unfolding find_rows match_row match_cell after_prefix Option.bind
find_rows-row_text r rest h k l =
    find_rows-cells (role_of r.entity) (name r.expected_code) (name r.code_produced)
      (codes "</tr>" ++ rest) h k l

made_rows : List Row → List OutcomeRow
made_rows [] = []
made_rows (r ∷ rows) =
    made_row (role_of r.entity) (name r.expected_code) (name r.code_produced) ∷ made_rows rows

find_rows-rows_text :
    (rows : List Row) (rest : Text)
    → find_rows 0 (rows_text rows rest) ≡ made_rows rows ++ find_rows 0 rest
unfolding rows_text made_rows
find_rows-rows_text [] rest = refl
find_rows-rows_text (r ∷ rows) rest =
    find_rows-row_text r (rows_text rows rest)
      (all_word-IsContent (role_of r.entity) (all_word-role_of r.entity))
      (all_word-IsContent (name r.expected_code) (all_word-name r.expected_code))
      (all_word-IsContent (name r.code_produced) (all_word-name r.code_produced))
    ∙ ap (λ l. made_row (role_of r.entity) (name r.expected_code) (name r.code_produced) ∷ l)
        (find_rows-rows_text rows rest)

after_prefix-none : (p s : Text) → is_prefix p s ≡ false → after_prefix p s ≡ none
unfolding after_prefix is_prefix
after_prefix-none [] s h = cc h
after_prefix-none (c ∷ p) [] h = refl
after_prefix-none (c ∷ p) (d ∷ s) h = ground (arith, after_prefix-none p s)

match_row-none : (s : Text) → is_prefix (codes "<th>") s ≡ false → match_row s ≡ none
unfolding match_row match_cell Option.bind
match_row-none s h = rw (after_prefix-none (codes "<th>") s h, match_row) refl

-- Where no cell begins, there is no row.
find_rows-none : (s : Text) → in_text (codes "<th>") s ≡ false → find_rows 0 s ≡ []
unfolding find_rows in_text
find_rows-none [] h = refl
find_rows-none (c ∷ s) h =
    rw (match_row-none (c ∷ s) (ground arith), find_rows) (find_rows-none s (ground arith))

find_rows-message_text :
    (rows : List Row) (information : Text)
    → in_text (codes "<th>") information ≡ false
    → find_rows 0 (message_text rows information) ≡ made_rows rows
unfolding message_text find_rows match_row match_cell after_prefix run_until lstrip space
    Option.bind
find_rows-message_text rows information h =
    find_rows-rows_text rows (codes "</table>" ++ information)
    ∙ ap (λ l. made_rows rows ++ l) (find_rows-none information h)
    ∙ append-nil (made_rows rows)

is_heading-word : (s : Text) → all_word s ≡ true → is_filled s ≡ true → is_heading s ≡ false
unfolding is_heading all_word
is_heading-word [] h k = cc k
is_heading-word (c ∷ s) h k = elim (Bool-cases (text_eq (c ∷ s) (codes "Expected Code"))) [
  | inl e ↦
      cc (subst (λ t. all_word t ≡ true) ((text_eq_iff (c ∷ s) (codes "Expected Code")).0 e) h)
  | inr e ↦ rw e refl
]

role_of-filled : (p : Process) → is_filled (role_of p) ≡ true
role_of-filled p =
    elim p.kind
      as (λ k.
        is_filled (elim k as (λ k'. Text) [
          | publisher ↦ codes "Publisher_" ++ decimal p.number
          | subscriber ↦ codes "Subscriber_" ++ decimal p.number
        ])
        ≡ true) [ publisher ↦ refl | subscriber ↦ refl ]

keep_rows-made_rows : (rows : List Row) → keep_rows (made_rows rows) ≡ report_rows rows
unfolding keep_rows made_rows
keep_rows-made_rows [] = refl
keep_rows-made_rows (r ∷ rows) =
    rw
      (
        strip-padded (role_of r.entity) (all_word-role_of r.entity),
        is_heading-word (role_of r.entity) (all_word-role_of r.entity) (role_of-filled r.entity),
        strip-padded (name r.expected_code) (all_word-name r.expected_code),
        strip-padded (name r.code_produced) (all_word-name r.code_produced),
        keep_rows-made_rows rows,
      )
      refl

-- The rows of the table that `run_test` writes into the message of a skipped or failed test are the
-- rows that are read from the message, in order, with their roles and codes, if no `<th>` stands in
-- what the message holds behind the table.
pub parse_outcome_rows-message_text :
    (rows : List Row) (information : Text)
    → in_text (codes "<th>") information ≡ false
    → parse_outcome_rows (message_text rows information) ≡ report_rows rows
unfolding parse_outcome_rows
parse_outcome_rows-message_text rows information h =
    ap keep_rows (find_rows-message_text rows information h) ∙ keep_rows-made_rows rows
