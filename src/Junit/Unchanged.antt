-- ===== src/Junit/Unchanged.antt =====
-- The comparison of a report with itself.
use dds_rtps.Prelude.{
  All, Bool, Bool-cases, Text, [], ap, false, if◌then◌else◌, inl, inr, not, refl, some, true, ◌∷◌,
  ◌≡◌,
}
use dds_rtps.Child.{returned}
use dds_rtps.Junit.Comparison.{
  CompareReport, also_in, changed_test, changed_tests, compare_reports, compare_results, only_in,
  result_at, result_before,
}
use dds_rtps.Junit.Differences.{differences_of-nil_iff, same_key_iff}
use dds_rtps.Junit.Loading.{HaveKeys, load_results_iff, same_result}
use dds_rtps.Junit.Results.{
  Key, ReportElement, Results, TestResult, has_key, key_of, results_of, same_key, test_label,
}
use dds_rtps.Prelude.Lists.{All-filter, All-map, All-sorted, filter_list-none}
use dds_rtps.Prelude.Sorting.{sorted}
use dds_rtps.Report.Selection.{map_list}

-- Each result is found under its own key.
result_at-own : (rs : Results) → HaveKeys rs → All (λ r. result_at (key_of r) rs ≡ some r) rs
unfolding result_at
result_at-own [] d = tt
result_at-own (x ∷ xs) (a, d) =
    (rw ((same_key_iff (key_of x) (key_of x)).1 refl) refl, both xs a (result_at-own xs d))
  where
    both :
        (ys : Results)
        → All (λ y. same_result x y ≡ false) ys
        → All (λ y. result_at (key_of y) xs ≡ some y) ys
        → All
            (λ y.
              (if same_key (key_of x) (key_of y) then some x else result_at (key_of y) xs) ≡ some y)
            ys
    both [] h k = tt
    both (y ∷ ys) (h, h') (k, k') = (rw h k, both ys h' k')

has_key-result_at :
    (k : Key) (rs : Results) (r : TestResult) → result_at k rs ≡ some r → has_key k rs ≡ true
unfolding has_key result_at
has_key-result_at k [] r e = cc e
has_key-result_at k (x ∷ xs) r e = elim (Bool-cases (same_key (key_of x) k)) [
  | inl h ↦ rw h refl
  | inr h ↦ rw h (has_key-result_at k xs r (rw h at e))
]

only_in_self : (rs : Results) → HaveKeys rs → only_in rs rs ≡ []
unfolding only_in sorted
only_in_self rs d = ap (sorted result_before) (
    filter_list-none (λ r. not (has_key (key_of r) rs)) rs
      (All-map (λ r. result_at (key_of r) rs ≡ some r) (λ r. not (has_key (key_of r) rs) ≡ false) rs
        (λ r e. ap not (has_key-result_at (key_of r) rs r e)) (result_at-own rs d)))

changed_tests-own :
    (times details : Bool) (olds rs : Results)
    → All (λ r. result_at (key_of r) rs ≡ some r) olds
    → changed_tests times details olds rs ≡ []
unfolding changed_tests changed_test
changed_tests-own times details [] rs h = refl
changed_tests-own times details (r ∷ olds) rs (e, h) =
    rw (e, (differences_of-nil_iff times details r r).1 (refl, (λ t. refl), (λ t. refl)))
      (changed_tests-own times details olds rs h)

changed_tests_self :
    (times details : Bool) (rs : Results)
    → HaveKeys rs
    → changed_tests times details (also_in rs rs) rs ≡ []
unfolding also_in
changed_tests_self times details rs d = changed_tests-own times details (also_in rs rs) rs (
    All-sorted (λ r. result_at (key_of r) rs ≡ some r) result_before _
      (All-filter (λ r. result_at (key_of r) rs ≡ some r) (λ r. has_key (key_of r) rs) rs
        (result_at-own rs d)))

-- A report that can be read, compared with itself, has no test that is added, removed or changed.
pub compare_reports_self :
    (times details : Bool) (path other_path : Text) (root : ReportElement)
    → HaveKeys (results_of root.suites)
    → (report : CompareReport) × (compare_reports times details path other_path root root
        ≡ returned report)
      × (report.added ≡ [])
      × (report.removed ≡ [])
      × (report.changed ≡ [])
unfolding compare_reports compare_results
compare_reports_self times details path other_path root d =
    let loads = (load_results_iff root (root.root_attrib, results_of root.suites)).1 (d, refl) in
    (
      compare_results times details path other_path (root.root_attrib, results_of root.suites)
          (root.root_attrib, results_of root.suites),
      rw loads refl,
      ap (λ rs. map_list test_label rs) (only_in_self (results_of root.suites) d),
      ap (λ rs. map_list test_label rs) (only_in_self (results_of root.suites) d),
      changed_tests_self times details (results_of root.suites) d,
    )
