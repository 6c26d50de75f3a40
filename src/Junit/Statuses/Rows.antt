-- ===== src/Junit/Statuses/Rows.antt =====
-- The rows that `_aggregate_statuses` makes, and the totals of a group of reports.
-- The row of a label, with no counts where there is none.
use dds_rtps.Prelude.{
  ℕ, Bool, Bool-cases, List, Text, [], ap, arith, false, if◌then◌else◌, inl, inr, refl, sym,
  text_eq, text_eq_iff, true, ◌+◌, ◌∙◌, ◌∷◌, ◌≡◌,
}
use dds_rtps.Counts.{count_all, count_where, get, sum_where}
use dds_rtps.Counts.Laws.{get-raise_by, sum_where-raise_by}
use dds_rtps.Junit.{RichStatus, passed, passed_as_skipped, same_status, same_status_iff}
use dds_rtps.Junit.Statuses.{
  Labelled, RichCounts, Totals, add_status, aggregate_statuses, count_of, enter_result,
  is_real_fail, passed_count, sum_rows, total_real_fail,
}
use dds_rtps.Junit.Statuses.Laws.{is_pass, pass_kinds, row_of}

abbrev pub row_at : Text → Totals → RichCounts
row_at l [] = []
row_at l ((k, row) ∷ totals) = if text_eq l k then row else row_at l totals

-- The classes of the results with a label.
abbrev pub statuses_at : Text → List Labelled → List RichStatus
statuses_at l [] = []
statuses_at l (r ∷ results) =
    if text_eq l r.label then r.rich_status ∷ statuses_at l results else statuses_at l results

row_at-enter_result :
    (l : Text) (r : Labelled) (totals : Totals)
    → row_at l (enter_result r totals)
      ≡ (if text_eq l r.label then add_status r.rich_status (row_at l totals) else row_at l totals)
unfolding enter_result
row_at-enter_result l r [] = refl
row_at-enter_result l r ((k, row) ∷ totals) = elim (Bool-cases (text_eq r.label k)) [
  | inl same ↦ rw same (rw ((text_eq_iff r.label k).0 same) (either (text_eq l k)))
  | inr other ↦ rw other (elim (Bool-cases (text_eq l k)) [
    | inl here ↦ rw (here, elsewhere here other) refl
    | inr there ↦ rw there (row_at-enter_result l r totals)
  ])
]
  where
    either :
        (b : Bool)
        → (if b then add_status r.rich_status row else row_at l totals) ≡ (
            if b
            then add_status r.rich_status (if b then row else row_at l totals)
            else (if b then row else row_at l totals))
    either true = refl
    either false = refl

    elsewhere : text_eq l k ≡ true → text_eq r.label k ≡ false → text_eq l r.label ≡ false
    elsewhere here other = elim (Bool-cases (text_eq l r.label)) [
      | inl equal ↦ cc (
          sym other
          ∙ (text_eq_iff r.label k).1
              (sym ((text_eq_iff l r.label).0 equal) ∙ (text_eq_iff l k).0 here))
      | inr apart ↦ apart
    ]

aggregate_statuses-row_at_from :
    (l : Text) (results : List Labelled) (totals : Totals)
    → row_at l (aggregate_statuses results totals)
      ≡ count_all same_status (statuses_at l results) (row_at l totals)
unfolding aggregate_statuses count_all add_status
aggregate_statuses-row_at_from l [] totals = refl
aggregate_statuses-row_at_from l (r ∷ results) totals =
    aggregate_statuses-row_at_from l results (enter_result r totals)
    ∙ ap (count_all same_status (statuses_at l results)) (row_at-enter_result l r totals)
    ∙ chosen (text_eq l r.label)
  where
    chosen :
        (b : Bool)
        → count_all same_status
            (statuses_at l results)
            (if b then add_status r.rich_status (row_at l totals) else row_at l totals)
          ≡ count_all same_status
              (if b then r.rich_status ∷ statuses_at l results else statuses_at l results)
              (row_at l totals)
    chosen true = refl
    chosen false = refl

-- The row that is made for a label over all reports counts the results with this label and no
-- others.
pub aggregate_statuses-row_at :
    (l : Text) (results : List Labelled)
    → row_at l (aggregate_statuses results []) ≡ row_of (statuses_at l results)
aggregate_statuses-row_at l results = aggregate_statuses-row_at_from l results []

-- A count of rows to which a result adds `d` of its class.
module _ (f : RichCounts → ℕ) (d : RichStatus → ℕ) (empty : f [] ≡ 0)
    (added : (rs : RichStatus) (row : RichCounts) → f (add_status rs row) ≡ f row + d rs) where
  abbrev pub weight : List Labelled → ℕ
  weight [] = 0
  weight (r ∷ results) = d r.rich_status + weight results

  sum_rows-enter_result :
      (r : Labelled) (totals : Totals)
      → sum_rows f (enter_result r totals) ≡ sum_rows f totals + d r.rich_status
  unfolding sum_rows enter_result
  sum_rows-enter_result r [] = omega (arith, added r.rich_status [], empty)
  sum_rows-enter_result r ((k, row) ∷ totals) = elim (Bool-cases (text_eq r.label k)) [
    | inl same ↦ rw same (omega (arith, added r.rich_status row))
    | inr other ↦ rw other (omega (arith, sum_rows-enter_result r totals))
  ]

  sum_rows-aggregate_statuses :
      (results : List Labelled) (totals : Totals)
      → sum_rows f (aggregate_statuses results totals) ≡ sum_rows f totals + weight results
  unfolding aggregate_statuses
  sum_rows-aggregate_statuses [] totals = omega arith
  sum_rows-aggregate_statuses (r ∷ results) totals = omega (
    arith,
    sum_rows-aggregate_statuses results (enter_result r totals),
    sum_rows-enter_result r totals,
  )

module _ (rs : RichStatus) (row : RichCounts) where
  count_of-add_status :
      (k : RichStatus)
      → count_of k (add_status rs row) ≡ count_of k row + (if same_status k rs then 1 else 0)
  unfolding count_of add_status
  count_of-add_status k = get-raise_by same_status same_status_iff rs k 1 row

  passed_count-add_status :
      passed_count (add_status rs row)
      ≡ passed_count row
        + ((if same_status passed rs then 1 else 0)
            + (if same_status passed_as_skipped rs then 1 else 0))
  unfolding passed_count
  passed_count-add_status =
      omega (arith, count_of-add_status passed, count_of-add_status passed_as_skipped)

  total_real_fail-add_status :
      total_real_fail (add_status rs row) ≡ total_real_fail row + (if is_real_fail rs then 1 else 0)
  unfolding total_real_fail add_status
  total_real_fail-add_status = sum_where-raise_by same_status same_status_iff is_real_fail rs 1 row

weight-count_where :
    (p : RichStatus → Bool) (d : RichStatus → ℕ)
    → ((rs : RichStatus) → d rs ≡ (if p rs then 1 else 0))
    → (f : RichCounts → ℕ) (empty : f [] ≡ 0)
      (added : (rs : RichStatus) (row : RichCounts) → f (add_status rs row) ≡ f row + d rs)
    → (results : List Labelled)
    → weight f d empty added results ≡ count_where (λ r. p r.rich_status) results
weight-count_where p d same f empty added [] = refl
weight-count_where p d same f empty added (r ∷ results) =
    omega (arith, same r.rich_status, weight-count_where p d same f empty added results)

-- The totals of a group of reports, `total_pass_raw` and `total_fail_raw`, are the numbers of its
-- results that are passes and that are real failures.
pub aggregate_statuses-totals :
    (results : List Labelled)
    → (sum_rows passed_count (aggregate_statuses results [])
        ≡ count_where (λ r. is_pass r.rich_status) results)
      × (sum_rows total_real_fail (aggregate_statuses results [])
          ≡ count_where (λ r. is_real_fail r.rich_status) results)
unfolding sum_rows passed_count count_of get total_real_fail sum_where
aggregate_statuses-totals results = (
  omega (
    arith,
    sum_rows-aggregate_statuses passed_count _ refl passed_count-add_status results [],
    weight-count_where is_pass _ (λ rs. sym (pass_kinds rs)) passed_count refl
        passed_count-add_status results,
  ),
  omega (
    arith,
    sum_rows-aggregate_statuses total_real_fail _ refl total_real_fail-add_status results [],
    weight-count_where is_real_fail _ (λ rs. refl) total_real_fail refl total_real_fail-add_status
        results,
  ),
)
