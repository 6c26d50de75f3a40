-- ===== src/Checks/Table.antt =====
-- The parallel lists that the checks keep for each instance, `instance_color`, `instance_seq_num`
-- and so on, which grow together: one list of pairs of a color and what is kept for it.
use mathlib.Core.Option
use dds_rtps.Prelude.{
  List, Option, Text, [], arith, if◌then◌else◌, none, or_else, refl, some, text_eq, text_eq_iff,
  ◌++◌, ◌∷◌, ◌≡◌, ◌≢◌,
}
use dds_rtps.Report.Verdict.{table}

module _ {P : Type 0} where
  -- `instance_color.index(color)` and the entries there, or `none` where `color` is not in the list
  unfoldable pub find : Text → List (Text × P) → Option P
  find color [] = none
  find color ((c, p) ∷ table) = if text_eq c color then some p else find color table

  -- A write to the entries of a color.
  unfoldable pub modify : Text → P → List (Text × P) → List (Text × P)
  modify color q [] = []
  modify color q ((c, p) ∷ table) =
      if text_eq c color then (c, q) ∷ table else (c, p) ∷ modify color q table

  -- `append` to each list, if the color is not in the first one.
  unfoldable pub enter : Text → P → List (Text × P) → List (Text × P)
  enter color p table = elim (find color table) [ none ↦ table ++ (color, p) ∷ [] | some q ↦ table ]

  -- `instance_color[0]`
  abbrev pub first_color : List (Text × P) → Option Text
  first_color [] = none
  first_color ((c, p) ∷ table) = some c

  pub find-modify :
      (color d : Text) (q : P) (table : List (Text × P))
      → find d (modify color q table)
        ≡ (if text_eq color d then Option.map (λ _. q) (find d table) else find d table)
  unfolding find modify
  find-modify color d q [] = ground arith
  find-modify color d q ((c, p) ∷ table) = ground (
    arith,
    find-modify color d q table,
    text_eq_iff color d,
    text_eq_iff c d,
    text_eq_iff c color,
  )

  find-append :
      (color d : Text) (p : P) (table : List (Text × P))
      → find color table ≡ none
      → find d (table ++ (color, p) ∷ []) ≡ (if text_eq color d then some p else find d table)
  unfolding find
  find-append color d p [] h = refl
  find-append color d p ((c, q) ∷ table) h = ground (
    arith,
    find-append color d p table,
    text_eq_iff color d,
    text_eq_iff c d,
    text_eq_iff c color,
  )

  pub find-enter_self :
      (color : Text) (p : P) (table : List (Text × P))
      → find color (enter color p table)
        ≡ elim (find color table) [ none ↦ some p | some q ↦ some q ]
  unfolding enter
  find-enter_self color p table =
      ground (arith, find-append color color p table, text_eq_iff color color)

  pub find-enter_ne :
      (color d : Text) (p : P) (table : List (Text × P))
      → color ≢ d
      → find d (enter color p table) ≡ find d table
  unfolding enter
  find-enter_ne color d p table h = ground (arith, find-append color d p table, text_eq_iff color d)

  -- A table with an entry has a first color, and keeps it.
  pub first_color-modify :
      (color : Text) (q : P) (table : List (Text × P))
      → first_color (modify color q table) ≡ first_color table
  unfolding modify
  first_color-modify color q [] = refl
  first_color-modify color q ((c, p) ∷ table) = ground arith

  pub first_color-enter :
      (color : Text) (p : P) (table : List (Text × P))
      → first_color (enter color p table) ≡ or_else (first_color table) (some color)
  unfolding enter find or_else
  first_color-enter color p [] = refl
  first_color-enter color p ((c, q) ∷ table) = ground arith
