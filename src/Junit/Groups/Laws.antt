-- ===== src/Junit/Groups/Laws.antt =====
-- The totals of a group of files.
use dds_rtps.Prelude.{
  ℕ, Bool, Bool-cases, List, Option, Text, [], ap, arith, false, if◌then◌else◌, inl, inr, ltb, none,
  refl, some, sym, text_eq, text_eq_iff, true, ◌+◌, ◌∙◌, ◌∷◌, ◌≡◌,
}
use dds_rtps.Counts.{raise_by, sum_where}
use dds_rtps.Counts.Laws.{sum_where-raise_by}
use dds_rtps.Junit.{RichStatus, same_status, same_status_iff}
use dds_rtps.Junit.Files.{ReportFile}
use dds_rtps.Junit.Groups.{
  Breakdown, Tally, add_counts, add_failures, breakdown_of, extract_feature, extract_pub_sub,
  group_report, nothing_counted, status_totals,
}
use dds_rtps.Junit.Statuses.{RichCounts, Totals, is_real_fail, sum_rows, total_real_fail}

-- `sum(tally.values())`
abbrev pub tally_sum : Tally → ℕ
tally_sum d = sum_where (λ k. true) d

raise-sum : (k : Text) (n : ℕ) (d : Tally) → tally_sum (raise_by text_eq k n d) ≡ tally_sum d + n
raise-sum k n d = sum_where-raise_by text_eq text_eq_iff (λ j. true) k n d

-- What one call of add_failures adds: to the features all, and the same to publishers and subscribers.
add_failures-sums :
    (l : Text) (n : ℕ) (b : Breakdown)
    → (tally_sum (add_failures l n b).features ≡ tally_sum b.features + n)
      × (tally_sum b.pubs ≡ tally_sum b.subs
          → tally_sum (add_failures l n b).pubs ≡ tally_sum (add_failures l n b).subs)
unfolding add_failures
add_failures-sums l n b =
    (raise-sum (extract_feature l) n b.features, λ h. pair_sums (extract_pub_sub l) h)
  where
    pair_sums :
        (o : Option (Text × Text))
        → tally_sum b.pubs ≡ tally_sum b.subs
        → tally_sum
            (elim o as (λ x. Tally) [ some p ↦ raise_by text_eq p.0 n b.pubs | none ↦ b.pubs ])
          ≡ tally_sum
              (elim o as (λ x. Tally) [ some p ↦ raise_by text_eq p.1 n b.subs | none ↦ b.subs ])
    pair_sums none h = h
    pair_sums (some p) h = raise-sum p.0 n b.pubs ∙ ap (λ k. k + n) h ∙ sym (raise-sum p.1 n b.subs)

-- The same of a number that may be zero, where nothing is added
add_some-sums :
    (l : Text) (n : ℕ) (b : Breakdown)
    → tally_sum b.pubs ≡ tally_sum b.subs
    → (tally_sum (if ltb 0 n then add_failures l n b else b).features ≡ tally_sum b.features + n)
      × (tally_sum (if ltb 0 n then add_failures l n b else b).pubs
          ≡ tally_sum (if ltb 0 n then add_failures l n b else b).subs)
add_some-sums l n b h = elim (Bool-cases (ltb 0 n)) [
  | inl e ↦ let (x, y) = add_failures-sums l n b in rw e (x, y h)
  | inr e ↦ rw e (no_more (tally_sum b.features) n e, h)
]
  where
    no_more : (k n : ℕ) → ltb 0 n ≡ false → k ≡ k + n
    no_more k n e = ground arith

breakdown_of-sums :
    (totals : Totals) (b : Breakdown)
    → tally_sum b.pubs ≡ tally_sum b.subs
    → (tally_sum (breakdown_of totals b).features
        ≡ tally_sum b.features + sum_rows total_real_fail totals)
      × (tally_sum (breakdown_of totals b).pubs ≡ tally_sum (breakdown_of totals b).subs)
unfolding breakdown_of sum_rows total_real_fail
breakdown_of-sums [] b h = (omega arith, h)
breakdown_of-sums ((l, row) ∷ totals) b h =
    let n = total_real_fail row in
    let (x, y) = add_some-sums l n b h in
    let (z, w) = breakdown_of-sums totals (if ltb 0 n then add_failures l n b else b) y in
    (z ∙ ap (λ k. k + sum_rows total_real_fail totals) x ∙ omega arith, w)

add_counts-sum :
    (p : RichStatus → Bool) (row sums : RichCounts)
    → sum_where p (add_counts row sums) ≡ sum_where p sums + sum_where p row
unfolding add_counts sum_where
add_counts-sum p [] sums = omega arith
add_counts-sum p ((rs, n) ∷ row) sums =
    add_counts-sum p row (raise_by same_status rs n sums)
    ∙ ap (λ k. k + sum_where p row) (sum_where-raise_by same_status same_status_iff p rs n sums)
    ∙ omega arith

status_totals-sum :
    (p : RichStatus → Bool) (totals : Totals) (sums : RichCounts)
    → sum_where p (status_totals totals sums)
      ≡ sum_where p sums + sum_rows (λ row. sum_where p row) totals
unfolding status_totals sum_rows
status_totals-sum p [] sums = omega arith
status_totals-sum p ((l, row) ∷ totals) sums =
    status_totals-sum p totals (add_counts row sums)
    ∙ ap (λ k. k + sum_rows (λ r. sum_where p r) totals) (add_counts-sum p row sums)
    ∙ omega arith

-- In the report on a group the failures by feature add up to all failures of the group, and so do the
-- counts of the statuses that are failures; the failures by publisher add up to the same number as
-- those by subscriber.
pub group_report-sums :
    (parallel : ℕ) (files : List ReportFile) (totals : Totals)
    → (tally_sum (group_report parallel files totals).all_fails.features
        ≡ (group_report parallel files totals).total_fail_raw)
      × (sum_where is_real_fail (group_report parallel files totals).rich_status_totals
          ≡ (group_report parallel files totals).total_fail_raw)
      × (tally_sum (group_report parallel files totals).all_fails.pubs
          ≡ tally_sum (group_report parallel files totals).all_fails.subs)
unfolding group_report total_real_fail
group_report-sums parallel files totals =
    let (x, y) = breakdown_of-sums totals nothing_counted refl in
    (
      x ∙ omega arith,
      status_totals-sum is_real_fail totals [] ∙ from_zero (sum_rows total_real_fail totals),
      y,
    )
  where
    from_zero : (n : ℕ) → 0 + n ≡ n
    from_zero n = omega arith
