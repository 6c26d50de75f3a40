-- ===== src/Junit/Division.antt =====
-- The tests of the explanation are divided: those that always pass, those that always fail, and the
-- others.
use dds_rtps.Prelude.{
  ℕ, Bool, Bool-cases, List, Text, [], ap, arith, inl, inr, length, ltb, not, refl, subst, sym,
  text_eq, ◌&&◌, ◌+◌, ◌==◌, ◌||◌, ◌∙◌, ◌∷◌, ◌≡◌,
}
use dds_rtps.Child.{>>=-eq-returned, returned, returned_inj, ◌>>=◌}
use dds_rtps.Counts.{count_where}
use dds_rtps.Counts.Lists.{
  count_where-filter_list, count_where-map_list, count_where-same, count_where-sorted,
  filter_list-rest,
}
use dds_rtps.Junit.{error}
use dds_rtps.Junit.Explanation.{
  Shares, add_label, add_labels, all_test_labels, explain_files, is_always_failing, is_mixed,
  shares_of,
}
use dds_rtps.Junit.Files.{ReportFile}
use dds_rtps.Junit.Groups.{
  StatusCounts, aggregate_files, labelled, status_counts, summarize_rows, summarize_test_statuses,
  worse_before,
}
use dds_rtps.Junit.Results.{load_results}
use dds_rtps.Junit.Statuses.{
  Labelled, RichCounts, Totals, aggregate_statuses, count_of, enter_result, failure_count,
  passed_count, total_fail,
}
use dds_rtps.Prelude.Lists.{length-map_list, length-sorted}
use dds_rtps.Prelude.Sorting.{filter_list}
use dds_rtps.Report.Selection.{map_list}

labels_in : Totals → List Text
labels_in [] = []
labels_in ((l, row) ∷ totals) = l ∷ labels_in totals

enter_result-labels :
    (r : Labelled) (totals : Totals)
    → labels_in (enter_result r totals) ≡ add_label r.label (labels_in totals)
unfolding labels_in enter_result add_label
enter_result-labels r [] = refl
enter_result-labels r ((l, row) ∷ totals) = elim (Bool-cases (text_eq r.label l)) [
  | inl e ↦ rw e refl
  | inr e ↦ rw e (ap (λ ls. l ∷ ls) (enter_result-labels r totals))
]

aggregate_statuses-labels :
    (rs : List Labelled) (totals : Totals)
    → labels_in (aggregate_statuses rs totals) ≡ add_labels rs (labels_in totals)
unfolding aggregate_statuses add_labels
aggregate_statuses-labels [] totals = refl
aggregate_statuses-labels (r ∷ rs) totals =
    aggregate_statuses-labels rs (enter_result r totals)
    ∙ ap (add_labels rs) (enter_result-labels r totals)

-- The labels of the rows are those that are collected.
aggregate_files-labels :
    (files : List ReportFile) (totals out : Totals)
    → aggregate_files files totals ≡ returned out
    → all_test_labels files (labels_in totals) ≡ returned (labels_in out)
unfolding aggregate_files all_test_labels
aggregate_files-labels [] totals out e = ap (λ t. returned (labels_in t)) (returned_inj e)
aggregate_files-labels (f ∷ files) totals out e =
    let (loaded, made, later) =
      >>=-eq-returned (load_results f.root)
        (λ l. aggregate_files files (aggregate_statuses (map_list labelled l.1) totals)) out e in
    ap
      (λ o.
        o >>= λ l. all_test_labels files (add_labels (map_list labelled l.1) (labels_in totals)))
      made
    ∙ ap (all_test_labels files)
        (sym (aggregate_statuses-labels (map_list labelled loaded.1) totals))
    ∙ aggregate_files-labels files (aggregate_statuses (map_list labelled loaded.1) totals) out
        later

length-labels_in : (totals : Totals) → length (labels_in totals) ≡ length totals
unfolding labels_in
length-labels_in [] = refl
length-labels_in ((l, row) ∷ totals) = omega (arith, length-labels_in totals)

-- A failure or an error of a test
abbrev pub fails_ever : RichCounts → Bool
unfolding failure_count count_of
fails_ever row = ltb 0 (failure_count row + count_of error row)

count_where-summarize_rows :
    (totals : Totals) (p : StatusCounts → Bool)
    → count_where p (summarize_rows totals)
      ≡ count_where (λ e. ltb 0 (total_fail e.1) && p (status_counts e)) totals
unfolding summarize_rows
count_where-summarize_rows totals p =
    count_where-sorted worse_before p _
    ∙ count_where-map_list status_counts p (filter_list (λ e. ltb 0 (total_fail e.1)) totals)
    ∙ count_where-filter_list (λ e. ltb 0 (total_fail e.1)) (λ e. p (status_counts e)) totals

length-summarize_rows :
    (totals : Totals)
    → length (summarize_rows totals) + count_where (λ e. not (fails_ever e.1)) totals
      ≡ length totals
unfolding summarize_rows total_fail fails_ever
length-summarize_rows totals =
    let rows = filter_list (λ (e : Text × RichCounts). ltb 0 (total_fail e.1)) totals in
    let same =
      length-sorted worse_before (map_list status_counts rows)
      ∙ length-map_list status_counts rows in
    let parts = filter_list-rest (λ (e : Text × RichCounts). ltb 0 (total_fail e.1)) totals in
    omega (arith, same, parts)

-- The numbers of a report on rows, one for each test.
abbrev pub AreCounted : Shares → Totals → Type 0
unfolding passed_count
AreCounted s totals =
    (s.total_unique_tests ≡ length totals)
    × (s.perm_pass ≡ count_where (λ e. not (fails_ever e.1)) totals)
    × (s.perm_fail ≡ count_where (λ e. fails_ever e.1 && passed_count e.1 == 0) totals)
    × (s.mixed ≡ count_where (λ e. fails_ever e.1 && ltb 0 (passed_count e.1)) totals)

shares_of-AreCounted :
    (totals : Totals) → AreCounted (shares_of (summarize_rows totals) (labels_in totals)) totals
unfolding shares_of AreCounted fails_ever total_fail
shares_of-AreCounted totals = (
  length-labels_in totals,
  omega (arith, length-labels_in totals, length-summarize_rows totals),
  count_where-summarize_rows totals is_always_failing
      ∙ count_where-same _ _
          (λ e. always (passed_count e.1) (failure_count e.1) (count_of error e.1)) totals,
  count_where-summarize_rows totals is_mixed
      ∙ count_where-same _ _
          (λ e. sometimes (passed_count e.1) (failure_count e.1) (count_of error e.1)) totals,
)
  where
    always :
        (p f e : ℕ)
        → (ltb 0 (f + e) && (p == 0 && (not (f == 0) || not (e == 0)))) ≡ (ltb 0 (f + e) && p == 0)
    always p f e = ground arith

    sometimes :
        (p f e : ℕ)
        → (ltb 0 (f + e) && (ltb 0 p && (not (f == 0) || not (e == 0))))
          ≡ (ltb 0 (f + e) && ltb 0 p)
    sometimes p f e = ground arith

-- Where the numbers are made, the files have been read and counted to rows, one for each test, and:
-- the tests are as many as the rows; those that are said to always pass are the rows with no failure
-- and no error, so also tests that are only skipped; those that always fail are the rows with a failure
-- or an error that never passed; and the mixed ones those with a failure or an error that passed also.
pub explain_files-AreCounted :
    (files : List ReportFile) (s : Shares)
    → explain_files files ≡ returned s
    → (totals : Totals) × (aggregate_files files [] ≡ returned totals) × AreCounted s totals
unfolding explain_files summarize_test_statuses labels_in
explain_files-AreCounted files s e =
    let (summary, made, later) =
      >>=-eq-returned (aggregate_files files [] >>= (λ totals. returned (summarize_rows totals)))
        (λ rows. all_test_labels files [] >>= (λ labels. returned (shares_of rows labels))) s e in
    let (totals, read, same) =
      >>=-eq-returned (aggregate_files files []) (λ t. returned (summarize_rows t)) summary made in
    let (labels, collected, out) =
      >>=-eq-returned (all_test_labels files []) (λ ls. returned (shares_of summary ls)) s later in
    let all : labels ≡ labels_in totals =
      returned_inj (sym collected ∙ aggregate_files-labels files [] totals read) in
    let rows : summary ≡ summarize_rows totals = sym (returned_inj same) in
    let result : shares_of (summarize_rows totals) (labels_in totals) ≡ s =
      sym (ap (λ r. shares_of r (labels_in totals)) rows)
      ∙ sym (ap (shares_of summary) all)
      ∙ returned_inj out in
    (totals, read, subst (λ s'. AreCounted s' totals) result (shares_of-AreCounted totals))
