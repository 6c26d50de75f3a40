-- ===== src/Junit/Statuses.antt =====
-- StatusSummaryRow of report_data.py, and `_aggregate_statuses` and the totals of analyzer.py.
pub mod Laws
pub mod Rows
use dds_rtps.Prelude.{
  ℕ, Bool, List, Text, [], false, if◌then◌else◌, ltb, text_eq, true, ◌&&◌, ◌+◌, ◌∷◌,
}
use dds_rtps.Counts.{get, raise_by, sum_where}
use dds_rtps.Junit.{
  RichStatus, error, failure_data, failure_false_pass, failure_infrastructure, failure_ordering,
  failure_other, failure_qos_unexpected, passed, passed_as_skipped, same_status, skipped_other,
  skipped_unsupported,
}

-- `rich_counts`
abbrev pub RichCounts : Type 0
RichCounts = List (RichStatus × ℕ)

-- `add`
unfoldable pub add_status : RichStatus → RichCounts → RichCounts
unfolding raise_by same_status
add_status rs row = raise_by same_status rs 1 row

unfoldable pub count_of : RichStatus → RichCounts → ℕ
unfolding get same_status
count_of rs row = get same_status rs row

unfoldable pub passed_count : RichCounts → ℕ
unfolding count_of
passed_count row = count_of passed row + count_of passed_as_skipped row

abbrev pub is_real_fail : RichStatus → Bool
is_real_fail passed = false
is_real_fail passed_as_skipped = false
is_real_fail skipped_unsupported = false
is_real_fail skipped_other = false
is_real_fail _ = true

unfoldable pub total_real_fail : RichCounts → ℕ
unfolding sum_where
total_real_fail row = sum_where is_real_fail row

-- `rs.value.startswith("failure")`
abbrev pub is_failure : RichStatus → Bool
is_failure failure_qos_unexpected = true
is_failure failure_false_pass = true
is_failure failure_data = true
is_failure failure_ordering = true
is_failure failure_infrastructure = true
is_failure failure_other = true
is_failure _ = false

unfoldable pub failure_count : RichCounts → ℕ
unfolding sum_where
failure_count row = sum_where is_failure row

unfoldable pub skipped_count : RichCounts → ℕ
unfolding count_of
skipped_count row = count_of skipped_unsupported row + count_of skipped_other row

unfoldable pub total_fail : RichCounts → ℕ
unfolding failure_count count_of
total_fail row = failure_count row + count_of error row

unfoldable pub is_flaky : RichCounts → Bool
unfolding passed_count total_real_fail
is_flaky row = ltb 0 (passed_count row) && ltb 0 (total_real_fail row)

-- A result: its label and its class.
pub record Labelled : Type 0 where
  pub label : Text
  pub rich_status : RichStatus

abbrev pub Totals : Type 0
Totals = List (Text × RichCounts)

-- `totals[label].add(...)`, with a new row where the label is not there
unfoldable pub enter_result : Labelled → Totals → Totals
unfolding add_status
enter_result r [] = (r.label, add_status r.rich_status []) ∷ []
enter_result r ((l, row) ∷ totals) =
    if text_eq r.label l
    then (l, add_status r.rich_status row) ∷ totals
    else (l, row) ∷ enter_result r totals

-- The loop of `_aggregate_statuses` over the results of all files.
unfoldable pub aggregate_statuses : List Labelled → Totals → Totals
unfolding enter_result
aggregate_statuses [] totals = totals
aggregate_statuses (r ∷ results) totals = aggregate_statuses results (enter_result r totals)

-- `sum(f(row) for row in all_rows.values())`
unfoldable pub sum_rows : (RichCounts → ℕ) → Totals → ℕ
sum_rows f [] = 0
sum_rows f ((l, row) ∷ totals) = f row + sum_rows f totals

-- The flaky tests of `build_parallel_group_report`, before they are sorted: the label, `passed` and
-- `total_real_fail`.
unfoldable pub flaky_rows : Totals → List (Text × ℕ × ℕ)
unfolding is_flaky
flaky_rows [] = []
flaky_rows ((l, row) ∷ totals) =
    if is_flaky row
    then (l, passed_count row, total_real_fail row) ∷ flaky_rows totals
    else flaky_rows totals
