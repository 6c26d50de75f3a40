-- ===== src/Junit/Groups.antt =====
-- The analysis of files with the same number of parallel runs: analyzer.py.
pub mod Laws
pub mod Placing
use mathlib.Core.Option
use dds_rtps.Prelude.{
  ℕ, Bool, List, Option, Text, [], codes, if◌then◌else◌, leb, length, ltb, none, not, or_else, some,
  text_eq, ◌&&◌, ◌++◌, ◌+◌, ◌/◌, ◌==◌, ◌||◌, ◌∷◌,
}
use dds_rtps.Child.{Outcome, returned, ◌>>=◌}
use dds_rtps.Counts.{count_all, raise_by}
use dds_rtps.Junit.{error, same_status, skipped_unsupported}
use dds_rtps.Junit.Comparison.{ChangedTest, CompareReport}
use dds_rtps.Junit.Files.{Meta, ReportFile, parse_filename_meta}
use dds_rtps.Junit.Results.{TestResult, load_results, test_label}
use dds_rtps.Junit.Statuses.{
  Labelled, RichCounts, Totals, aggregate_statuses, count_of, failure_count, flaky_rows,
  passed_count, skipped_count, sum_rows, total_fail, total_real_fail,
}
use dds_rtps.Prelude.Sorting.{any_of, filter_list, sorted, text_leb}
use dds_rtps.Regex.{Pattern, chr, digit, group, literal, many, match_text, search_text, space}
use dds_rtps.Report.Selection.{map_list}

abbrev pub labelled : TestResult → Labelled
labelled r = record { label = test_label r; rich_status = r.status_class }

-- `_aggregate_statuses` of the files
unfoldable pub aggregate_files : List ReportFile → Totals → Outcome Totals
unfolding load_results aggregate_statuses test_label
aggregate_files [] totals = returned totals
aggregate_files (f ∷ files) totals =
    load_results f.root
    >>= (λ loaded. aggregate_files files (aggregate_statuses (map_list labelled loaded.1) totals))

-- A row of `summarize_test_statuses`: the label, and how many passed, failed, ended by an exception and
-- were skipped.
pub record StatusCounts : Type 0 where
  pub labelled_as : Text
  pub passes : ℕ
  pub failures : ℕ
  pub errors : ℕ
  pub skips : ℕ

abbrev pub status_counts : Text × RichCounts → StatusCounts
status_counts (l, row) = record {
  labelled_as = l;
  passes = passed_count row;
  failures = failure_count row;
  errors = count_of error row;
  skips = skipped_count row;
}

-- More failures and errors first, and then by the label
abbrev pub worse_before : StatusCounts → StatusCounts → Bool
worse_before a b =
    let m = a.failures + a.errors in
    let n = b.failures + b.errors in
    if m == n then text_leb a.labelled_as b.labelled_as else ltb n m

unfoldable pub summarize_rows : Totals → List StatusCounts
unfolding sorted text_leb passed_count failure_count count_of skipped_count total_fail
summarize_rows totals =
    sorted worse_before (map_list status_counts (filter_list (λ e. ltb 0 (total_fail e.1)) totals))

-- `summarize_test_statuses`
unfoldable pub summarize_test_statuses : List ReportFile → Outcome (List StatusCounts)
unfolding aggregate_files summarize_rows
summarize_test_statuses files =
    aggregate_files files [] >>= (λ totals. returned (summarize_rows totals))

-- `summarize_all_statuses`
unfoldable pub summarize_all_statuses : List ReportFile → Outcome (List StatusCounts)
unfolding aggregate_files sorted text_leb
summarize_all_statuses files =
    aggregate_files files []
    >>= (λ totals. returned (map_list status_counts (sorted (λ a b. text_leb a.0 b.0) totals)))

-- Has the test changed its status?
unfoldable pub has_status_change : ChangedTest → Bool
unfolding text_eq
has_status_change c = any_of (λ d. text_eq d.field (codes "status")) c.differences

changed_labels : List CompareReport → List Text
unfolding has_status_change
changed_labels [] = []
changed_labels (r ∷ reports) =
    map_list (λ c. c.test) (filter_list has_status_change r.changed) ++ changed_labels reports

-- The number of status changes of each test
unfoldable pub change_counts : List CompareReport → List (Text × ℕ)
unfolding changed_labels count_all text_eq
change_counts reports = count_all text_eq (changed_labels reports) []

-- `_repeated_change_tests`
unfoldable pub repeated_change_tests : List CompareReport → List (Text × ℕ)
unfolding change_counts sorted text_leb
repeated_change_tests reports =
    filter_list (λ e. ltb 1 e.1) (sorted (λ a b. text_leb a.0 b.0) (change_counts reports))

abbrev no_dash : ℕ → Bool
no_dash c = not (c == b'-')

abbrev pair_pattern : Pattern
pair_pattern =
    group no_dash
    ∷ chr b'-'
    ∷ group no_dash
    ∷ chr b'-'
    ∷ chr b'-'
    ∷ chr b'-'
    ∷ group no_dash
    ∷ chr b'-'
    ∷ group (λ c. not (space c))
    ∷ many space
    ∷ chr b'/'
    ∷ []

-- The two groups of the source's pattern out of the four runs
pair_of : List Text → Option (Text × Text)
pair_of (a ∷ b ∷ c ∷ d ∷ []) = some (a ++ (b'-' ∷ b), c ++ (b'-' ∷ d))
pair_of _ = none

-- `_extract_pub_sub`: the blanks at the start of the pattern are matched if possible.
unfoldable pub extract_pub_sub : Text → Option (Text × Text)
unfolding match_text or_else pair_of space
extract_pub_sub l =
    Option.bind (or_else (match_text (many space ∷ pair_pattern) l) (match_text pair_pattern l))
      (λ m. pair_of m.groups)

letter_or_digit : ℕ → Bool
unfolding digit
letter_or_digit c = digit c || (leb b'A' c && leb c b'Z') || (leb b'a' c && leb c b'z')

feature_pattern : Pattern
unfolding digit letter_or_digit
feature_pattern =
    literal (codes "/ rtps_test_suite_")
    ++ (many digit
        ∷ (literal (codes "_Test_") ++ (group letter_or_digit ∷ chr b'_' ∷ many digit ∷ [])))

-- The feature that a label names
unfoldable pub feature_or : Text → Text → Text
unfolding search_text feature_pattern
feature_or default l = elim (search_text feature_pattern l) [
  | some m ↦ elim m.groups [ [] ↦ [] | g ∷ gs ↦ g ]
  | none ↦ default
]

-- `_extract_feature`
unfoldable pub extract_feature : Text → Text
unfolding feature_or
extract_feature l = feature_or (codes "Ostatní") l

abbrev pub Tally : Type 0
Tally = List (Text × ℕ)

-- The failures by feature, by publisher and by subscriber
pub record Breakdown : Type 0 where
  pub features : Tally
  pub pubs : Tally
  pub subs : Tally

-- The number is added to the feature of the label, and to its publisher and subscriber where it tells
-- them.
unfoldable pub add_failures : Text → ℕ → Breakdown → Breakdown
unfolding raise_by text_eq extract_feature extract_pub_sub
add_failures l n b = record {
  features = raise_by text_eq (extract_feature l) n b.features;
  pubs = elim (extract_pub_sub l) [ some p ↦ raise_by text_eq p.0 n b.pubs | none ↦ b.pubs ];
  subs = elim (extract_pub_sub l) [ some p ↦ raise_by text_eq p.1 n b.subs | none ↦ b.subs ];
}

abbrev pub nothing_counted : Breakdown
nothing_counted = record { features = []; pubs = []; subs = [] }

-- The loop over the tests with a real failure
unfoldable pub breakdown_of : Totals → Breakdown → Breakdown
unfolding add_failures total_real_fail
breakdown_of [] b = b
breakdown_of ((l, row) ∷ totals) b =
    breakdown_of totals
      (if ltb 0 (total_real_fail row) then add_failures l (total_real_fail row) b else b)

-- The loop over the flaky tests: their failures, and how many they are
unfoldable pub flaky_breakdown : List (Text × ℕ × ℕ) → Breakdown → Breakdown
unfolding add_failures
flaky_breakdown [] b = b
flaky_breakdown ((l, p, f) ∷ rows) b = flaky_breakdown rows (add_failures l f b)

unfoldable pub flaky_tests_by : List (Text × ℕ × ℕ) → Breakdown → Breakdown
unfolding add_failures
flaky_tests_by [] b = b
flaky_tests_by ((l, p, f) ∷ rows) b = flaky_tests_by rows (add_failures l 1 b)

-- `rich_status_totals`, row by row
unfoldable pub add_counts : RichCounts → RichCounts → RichCounts
unfolding raise_by same_status
add_counts [] totals = totals
add_counts ((rs, n) ∷ row) totals = add_counts row (raise_by same_status rs n totals)

unfoldable pub status_totals : Totals → RichCounts → RichCounts
unfolding add_counts
status_totals [] sums = sums
status_totals ((l, row) ∷ totals) sums = status_totals totals (add_counts row sums)

-- The flaky tests with the most results first
abbrev flakier_before : Text × ℕ × ℕ → Text × ℕ × ℕ → Bool
flakier_before (l, p, f) (l', p', f') = leb (p' + f') (p + f)

pub record ParallelGroupReport : Type 0 where
  pub parallel_count : ℕ
  pub run_count : ℕ
  pub file_paths : List Text
  pub total_fail_raw : ℕ
  pub total_pass_raw : ℕ
  pub total_skip_raw : ℕ
  pub total_unique_tests : ℕ
  pub rich_status_totals : RichCounts
  pub flaky_tests : List (Text × ℕ × ℕ)
  pub flaky_fails : Breakdown
  pub flaky_test_counts : Breakdown
  pub all_fails : Breakdown

unfoldable pub group_report : ℕ → List ReportFile → Totals → ParallelGroupReport
unfolding sorted flaky_rows sum_rows status_totals breakdown_of flaky_breakdown flaky_tests_by
    passed_count total_real_fail count_of
group_report parallel files totals =
    let flaky = sorted flakier_before (flaky_rows totals) in
    record {
      parallel_count = parallel;
      run_count = length files;
      file_paths = map_list (λ f. f.path) files;
      total_fail_raw = sum_rows total_real_fail totals;
      total_pass_raw = sum_rows passed_count totals;
      total_skip_raw = sum_rows (count_of skipped_unsupported) totals;
      total_unique_tests = length totals;
      rich_status_totals = status_totals totals [];
      flaky_tests = flaky;
      flaky_fails = flaky_breakdown flaky nothing_counted;
      flaky_test_counts = flaky_tests_by flaky nothing_counted;
      all_fails = breakdown_of totals nothing_counted;
    }

-- `build_parallel_group_report`
unfoldable pub build_parallel_group_report : ℕ → List ReportFile → Outcome ParallelGroupReport
unfolding aggregate_files group_report
build_parallel_group_report parallel files =
    aggregate_files files [] >>= (λ totals. returned (group_report parallel files totals))

-- `groups.setdefault(n, []).append(f)`
unfoldable pub add_to_group :
    ℕ → ReportFile → List (ℕ × List ReportFile) → List (ℕ × List ReportFile)
add_to_group n f [] = (n, f ∷ []) ∷ []
add_to_group n f ((m, fs) ∷ gs) =
    if n == m then (m, fs ++ (f ∷ [])) ∷ gs else (m, fs) ∷ add_to_group n f gs

pub record Grouping : Type 0 where
  pub by_count : List (ℕ × List ReportFile)
  pub ungrouped : List ReportFile

unfoldable pub place_file : Option Meta → ReportFile → Grouping → Grouping
unfolding add_to_group
place_file (some m) f g = record g { by_count = add_to_group m.parallel f g.by_count }
place_file none f g = record g { ungrouped = g.ungrouped ++ (f ∷ []) }

unfoldable pub place_files : List ReportFile → Grouping → Grouping
unfolding place_file parse_filename_meta
place_files [] g = g
place_files (f ∷ files) g = place_files files (place_file (parse_filename_meta f.file_name) f g)

unfoldable pub report_groups : List (ℕ × List ReportFile) → Outcome (List ParallelGroupReport)
unfolding build_parallel_group_report
report_groups [] = returned []
report_groups ((n, files) ∷ gs) =
    build_parallel_group_report n files >>= (λ r. report_groups gs >>= (λ rs. returned (r ∷ rs)))

pub record ExplainParallelReport : Type 0 where
  pub group_reports : List ParallelGroupReport
  pub ungrouped_files : List Text

-- `build_explain_parallel_report`
unfoldable pub build_explain_parallel_report : List ReportFile → Outcome ExplainParallelReport
unfolding place_files sorted report_groups
build_explain_parallel_report files =
    let g = place_files files (record { by_count = []; ungrouped = [] }) in
    report_groups (sorted (λ a b. leb a.0 b.0) g.by_count) >>= (λ reports.
      returned
        (record { group_reports = reports; ungrouped_files = map_list (λ f. f.path) g.ungrouped }))
