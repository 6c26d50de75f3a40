-- ===== src/Junit/Explanation.antt =====
-- The statistics of `generate_explanation` of explain.py, from which it makes its text.
use dds_rtps.Prelude.{
  ℕ, Bool, List, Option, Text, [], codes, false, if◌then◌else◌, leb, length, ltb, none, not, some,
  text_eq, true, ◌&&◌, ◌+◌, ◌-◌, ◌==◌, ◌||◌, ◌∷◌,
}
use dds_rtps.Child.{Outcome, returned, ◌>>=◌}
use dds_rtps.Counts.{count_where, raise_by}
use dds_rtps.Junit.Comparison.{ChangedTest, CompareReport, Difference}
use dds_rtps.Junit.Files.{ReportFile}
use dds_rtps.Junit.Groups.{
  Breakdown, StatusCounts, change_counts, extract_pub_sub, feature_or, labelled, nothing_counted,
  summarize_test_statuses,
}
use dds_rtps.Junit.Results.{load_results, test_label}
use dds_rtps.Junit.Statuses.{Labelled}
use dds_rtps.Prelude.Sorting.{filter_list, sorted, text_leb}
use dds_rtps.Report.Selection.{map_list}

-- A status that is no skip
is_run_status : Text → Bool
unfolding text_eq
is_run_status s =
    text_eq s (codes "passed") || text_eq s (codes "failure") || text_eq s (codes "error")

status_difference : List Difference → Option Difference
unfolding text_eq
status_difference [] = none
status_difference (d ∷ ds) =
    if text_eq d.field (codes "status") then some d else status_difference ds

-- The tests of a single comparison that changed their status: those that ran in both reports, or the
-- others
unfoldable pub changes_of_one : Bool → List ChangedTest → List (Text × ℕ)
unfolding status_difference is_run_status
changes_of_one ran [] = []
changes_of_one ran (c ∷ cs) = elim (status_difference c.differences) [
  | some d ↦
      let both = is_run_status d.first_value && is_run_status d.second_value in
      let more = changes_of_one ran cs in
      if (if ran then both else not both) then (c.test, 1) ∷ more else more
  | none ↦ changes_of_one ran cs
]

-- More changes first, and then by the label
abbrev oftener_before : Text × ℕ → Text × ℕ → Bool
oftener_before (s, m) (t, n) = if m == n then text_leb s t else ltb n m

unfoldable pub truly_flaky : List CompareReport → List (Text × ℕ)
unfolding change_counts changes_of_one sorted text_leb
truly_flaky [] = []
truly_flaky (r ∷ []) = sorted oftener_before (changes_of_one true r.changed)
truly_flaky (r ∷ r' ∷ reports) =
    sorted oftener_before (filter_list (λ e. leb 3 e.1) (change_counts (r ∷ r' ∷ reports)))

unfoldable pub partially_flaky : List CompareReport → List (Text × ℕ)
unfolding change_counts changes_of_one sorted text_leb
partially_flaky [] = []
partially_flaky (r ∷ []) = sorted oftener_before (changes_of_one false r.changed)
partially_flaky (r ∷ r' ∷ reports) =
    sorted oftener_before (filter_list (λ e. e.1 == 2) (change_counts (r ∷ r' ∷ reports)))

-- `labels.add(label)`
unfoldable pub add_label : Text → List Text → List Text
unfolding text_eq
add_label l [] = l ∷ []
add_label l (k ∷ ks) = if text_eq l k then k ∷ ks else k ∷ add_label l ks

unfoldable pub add_labels : List Labelled → List Text → List Text
unfolding add_label
add_labels [] ls = ls
add_labels (r ∷ rs) ls = add_labels rs (add_label r.label ls)

-- `all_test_labels`
unfoldable pub all_test_labels : List ReportFile → List Text → Outcome (List Text)
unfolding load_results add_labels test_label
all_test_labels [] ls = returned ls
all_test_labels (f ∷ files) ls =
    load_results f.root
    >>= (λ loaded. all_test_labels files (add_labels (map_list labelled loaded.1) ls))

abbrev pub has_failed : StatusCounts → Bool
has_failed c = not (c.failures == 0) || not (c.errors == 0)

abbrev pub is_always_failing : StatusCounts → Bool
is_always_failing c = c.passes == 0 && has_failed c

abbrev pub is_mixed : StatusCounts → Bool
is_mixed c = ltb 0 c.passes && has_failed c

-- The failures and exceptions of each test, by feature, publisher and subscriber
unfoldable pub explained_fails : List StatusCounts → Breakdown → Breakdown
unfolding raise_by text_eq feature_or extract_pub_sub
explained_fails [] b = b
explained_fails (c ∷ cs) b =
    let n = c.failures + c.errors in
    let p = extract_pub_sub c.labelled_as in
    explained_fails cs (record {
      features = raise_by text_eq (feature_or (codes "Other") c.labelled_as) n b.features;
      pubs = elim p [ some q ↦ raise_by text_eq q.0 n b.pubs | none ↦ b.pubs ];
      subs = elim p [ some q ↦ raise_by text_eq q.1 n b.subs | none ↦ b.subs ];
    })

pub record Shares : Type 0 where
  pub total_unique_tests : ℕ
  pub perm_pass : ℕ
  pub perm_fail : ℕ
  pub mixed : ℕ
  pub fails : Breakdown

unfoldable pub shares_of : List StatusCounts → List Text → Shares
unfolding explained_fails
shares_of summary labels = record {
  total_unique_tests = length labels;
  perm_pass = length labels - length summary;
  perm_fail = count_where is_always_failing summary;
  mixed = count_where is_mixed summary;
  fails = explained_fails summary nothing_counted;
}

-- The numbers of the report where there are files
unfoldable pub explain_files : List ReportFile → Outcome Shares
unfolding summarize_test_statuses all_test_labels shares_of
explain_files files =
    summarize_test_statuses files
    >>= (λ summary. all_test_labels files [] >>= (λ labels. returned (shares_of summary labels)))
