-- ===== src/Junit/Statuses/Laws.antt =====
-- The counts of a row, and the totals over the rows.
-- The row that the results of one label make.
use dds_rtps.Prelude.{
  ℕ, Bool, List, [], arith, if◌then◌else◌, length, refl, true, ◌+◌, ◌||◌, ◌↔◌, ◌∙◌, ◌∷◌, ◌≡◌, ◌≤◌,
}
use dds_rtps.Counts.{count_all, count_where, get, sum_where}
use dds_rtps.Counts.Laws.{get-count_all, sum_where-count_all}
use dds_rtps.Junit.{
  RichStatus, error, failure_data, failure_false_pass, failure_infrastructure, failure_ordering,
  failure_other, failure_qos_unexpected, passed, passed_as_skipped, same_status, same_status_iff,
  skipped_other, skipped_unsupported,
}
use dds_rtps.Junit.Statuses.{
  RichCounts, count_of, failure_count, is_failure, is_flaky, is_real_fail, passed_count,
  skipped_count, total_fail, total_real_fail,
}

abbrev pub row_of : List RichStatus → RichCounts
row_of statuses = count_all same_status statuses []

abbrev pub is_pass : RichStatus → Bool
is_pass rs = same_status passed rs || same_status passed_as_skipped rs

abbrev pub is_skip : RichStatus → Bool
is_skip rs = same_status skipped_unsupported rs || same_status skipped_other rs

abbrev pub one_if : Bool → ℕ
one_if b = if b then 1 else 0

-- Each status is of exactly one kind.
one_kind :
    (rs : RichStatus) → one_if (is_pass rs) + one_if (is_real_fail rs) + one_if (is_skip rs) ≡ 1
unfolding same_status
one_kind passed = refl
one_kind passed_as_skipped = refl
one_kind skipped_unsupported = refl
one_kind skipped_other = refl
one_kind failure_qos_unexpected = refl
one_kind failure_false_pass = refl
one_kind failure_data = refl
one_kind failure_ordering = refl
one_kind failure_infrastructure = refl
one_kind failure_other = refl
one_kind error = refl

-- The real failures are the failures and the errors.
fail_kinds :
    (rs : RichStatus)
    → one_if (is_real_fail rs) ≡ one_if (is_failure rs) + one_if (same_status error rs)
unfolding same_status
fail_kinds passed = refl
fail_kinds passed_as_skipped = refl
fail_kinds skipped_unsupported = refl
fail_kinds skipped_other = refl
fail_kinds failure_qos_unexpected = refl
fail_kinds failure_false_pass = refl
fail_kinds failure_data = refl
fail_kinds failure_ordering = refl
fail_kinds failure_infrastructure = refl
fail_kinds failure_other = refl
fail_kinds error = refl

pub pass_kinds :
    (rs : RichStatus)
    → one_if (is_pass rs)
      ≡ one_if (same_status passed rs) + one_if (same_status passed_as_skipped rs)
unfolding same_status
pass_kinds passed = refl
pass_kinds passed_as_skipped = refl
pass_kinds skipped_unsupported = refl
pass_kinds skipped_other = refl
pass_kinds failure_qos_unexpected = refl
pass_kinds failure_false_pass = refl
pass_kinds failure_data = refl
pass_kinds failure_ordering = refl
pass_kinds failure_infrastructure = refl
pass_kinds failure_other = refl
pass_kinds error = refl

skip_kinds :
    (rs : RichStatus)
    → one_if (is_skip rs)
      ≡ one_if (same_status skipped_unsupported rs) + one_if (same_status skipped_other rs)
unfolding same_status
skip_kinds passed = refl
skip_kinds passed_as_skipped = refl
skip_kinds skipped_unsupported = refl
skip_kinds skipped_other = refl
skip_kinds failure_qos_unexpected = refl
skip_kinds failure_false_pass = refl
skip_kinds failure_data = refl
skip_kinds failure_ordering = refl
skip_kinds failure_infrastructure = refl
skip_kinds failure_other = refl
skip_kinds error = refl

-- What is counted is a sum of what is counted in two ways.
count_where-sum :
    (p q r : RichStatus → Bool)
    → ((rs : RichStatus) → one_if (p rs) ≡ one_if (q rs) + one_if (r rs))
    → (ks : List RichStatus) → count_where p ks ≡ count_where q ks + count_where r ks
count_where-sum p q r h [] = omega arith
count_where-sum p q r h (k ∷ ks) = omega (arith, h k, count_where-sum p q r h ks)

count_where-kinds :
    (ks : List RichStatus)
    → count_where is_pass ks + count_where is_real_fail ks + count_where is_skip ks ≡ length ks
count_where-kinds [] = omega arith
count_where-kinds (k ∷ ks) = omega (arith, one_kind k, count_where-kinds ks)

module _ (statuses : List RichStatus) where
  row_of-count_of :
      (rs : RichStatus) → count_of rs (row_of statuses) ≡ count_where (same_status rs) statuses
  unfolding count_of get
  row_of-count_of rs = get-count_all same_status same_status_iff rs statuses [] ∙ omega arith

  pub row_of-passed_count : passed_count (row_of statuses) ≡ count_where is_pass statuses
  unfolding passed_count
  row_of-passed_count = omega (
    arith,
    row_of-count_of passed,
    row_of-count_of passed_as_skipped,
    count_where-sum is_pass (same_status passed) (same_status passed_as_skipped) pass_kinds
        statuses,
  )

  pub row_of-skipped_count : skipped_count (row_of statuses) ≡ count_where is_skip statuses
  unfolding skipped_count
  row_of-skipped_count = omega (
    arith,
    row_of-count_of skipped_unsupported,
    row_of-count_of skipped_other,
    count_where-sum is_skip (same_status skipped_unsupported) (same_status skipped_other) skip_kinds
        statuses,
  )

  pub row_of-total_real_fail : total_real_fail (row_of statuses) ≡ count_where is_real_fail statuses
  unfolding total_real_fail sum_where
  row_of-total_real_fail =
      sum_where-count_all same_status same_status_iff is_real_fail statuses [] ∙ omega arith

  row_of-failure_count : failure_count (row_of statuses) ≡ count_where is_failure statuses
  unfolding failure_count sum_where
  row_of-failure_count =
      sum_where-count_all same_status same_status_iff is_failure statuses [] ∙ omega arith

  -- The row of the results of a test counts each of them once, as passed, as a real failure or as
  -- skipped; and the real failures are as many as the failures and errors of the older property.
  pub row_of-counts :
      (passed_count (row_of statuses)
          + total_real_fail (row_of statuses)
          + skipped_count (row_of statuses)
        ≡ length statuses)
      × (total_real_fail (row_of statuses) ≡ total_fail (row_of statuses))
  unfolding total_fail
  row_of-counts = (
    omega (
      arith,
      row_of-passed_count,
      row_of-total_real_fail,
      row_of-skipped_count,
      count_where-kinds statuses,
    ),
    omega (
      arith,
      row_of-total_real_fail,
      row_of-failure_count,
      row_of-count_of error,
      count_where-sum is_real_fail is_failure (same_status error) fail_kinds statuses,
    ),
  )

  -- A test is flaky exactly if at least one of its results is a pass and at least one is a real
  -- failure.
  pub row_of-is_flaky_iff :
      (is_flaky (row_of statuses) ≡ true)
      ↔ ((1 ≤ count_where is_pass statuses) × (1 ≤ count_where is_real_fail statuses))
  unfolding is_flaky
  row_of-is_flaky_iff = ground (arith, row_of-passed_count, row_of-total_real_fail)
