-- ===== src/Checks/Tests.antt =====
-- Runs of the checks, and the properties at runs that meet their hypotheses.
use dds_rtps.Prelude.{
  ℕ, Text, [], codes, if◌then◌else◌, ltb, refl, some, suc, text_eq, zero, ◌%◌, ◌++◌, ◌+◌, ◌/◌, ◌<◌,
  ◌==◌, ◌↔◌, ◌∷◌, ◌≡◌, ◌≤◌,
}
use dds_rtps.ReturnCode.{data_not_correct, ok, receiving_from_both, same_code}
use dds_rtps.Checks.{max_samples_read}
use dds_rtps.Checks.Ordering.{test_order_w_instances, test_reliability_no_losses_w_instances}
use dds_rtps.Checks.Ordering.Laws.{
  Fails, Succeeds, test_order_w_instances-Succeeds, test_reliability-Fails,
  test_reliability-Succeeds,
}
use dds_rtps.Checks.Ordering.Trace.{printed}
use dds_rtps.Checks.Ranges.{
  test_durability_transient_local, test_durability_volatile, test_large_data,
}
use dds_rtps.Checks.Ranges.Laws.{durability_verdicts, large_prefix, test_large_data-ok_iff}
use dds_rtps.Checks.Readings.{readings}
use dds_rtps.Checks.Receivers.{test_color_receivers, test_size_receivers}
use dds_rtps.Checks.Receivers.Colors.{differing, test_color_receivers-both_iff}
use dds_rtps.Checks.Receivers.Laws.{changes, test_size_receivers-both_iff}
use dds_rtps.Checks.Table.{enter, find, modify}
use dds_rtps.Child.{Feed, found, returned}
use dds_rtps.Samples.{
  basic_check, color_pattern, sample_pattern, search_group, search_int, search_sample, size_pattern,
}

run : Unit {0}
unfolding basic_check search_sample search_int search_group find modify enter same_code text_eq
run = tt

abbrev line : ℕ → Text
line n =
    codes "S B 1 1 [" ++ ((b'0' + n / 100) ∷ (b'0' + n / 10 % 10) ∷ (b'0' + n % 10) ∷ codes "]")

-- Samples of growing sizes.
counting : ℕ → ℕ → Feed
counting zero size = []
counting (suc n) size = found 0 (line size) ∷ counting n (size + 1)

ordered_run : test_order_w_instances (line 1) (counting 500 2) ≡ returned ok
unfolding test_order_w_instances run counting
ordered_run = refl

test_order_w_instances-Succeeds_example : Succeeds ◌<◌ (printed (line 1) (counting 500 2))
test_order_w_instances-Succeeds_example =
    test_order_w_instances-Succeeds (line 1) (counting 500 2) ordered_run

reliable_run : test_reliability_no_losses_w_instances (line 1) (counting 500 2) ≡ returned ok
unfolding test_reliability_no_losses_w_instances run counting
reliable_run = refl

test_reliability-Succeeds_example : Succeeds (λ x y. x + 1 ≡ y) (printed (line 1) (counting 500 2))
test_reliability-Succeeds_example = test_reliability-Succeeds (line 1) (counting 500 2) reliable_run

line_passes : basic_check (line 7) ≡ ok
unfolding run
line_passes = refl

abbrev stale : Feed
stale = found 0 (line 9) ∷ found 0 (line 8) ∷ []

disordered_run : test_order_w_instances (line 7) stale ≡ returned data_not_correct
unfolding test_order_w_instances run
disordered_run = refl

lossy_run : test_reliability_no_losses_w_instances (line 7) stale ≡ returned data_not_correct
unfolding test_reliability_no_losses_w_instances run
lossy_run = refl

test_reliability-Fails_example : Fails (λ x y. x + 1 ≡ y) (printed (line 7) stale)
test_reliability-Fails_example = test_reliability-Fails (line 7) stale line_passes lossy_run

test_size_receivers-both_iff_example :
    (test_size_receivers (line 7) stale ≡ receiving_from_both) ↔ (
      (basic_check (line 7) ≡ ok)
      × (2 ≤ changes (readings (search_int sample_pattern) max_samples_read (line 7) stale)))
test_size_receivers-both_iff_example = test_size_receivers-both_iff (line 7) stale

test_color_receivers-both_iff_example :
    (test_color_receivers (line 7) stale ≡ returned receiving_from_both) ↔ (
      (basic_check (line 7) ≡ ok)
      × (1 ≤ differing (readings (search_group color_pattern) max_samples_read (line 7) stale)))
test_color_receivers-both_iff_example = test_color_receivers-both_iff (line 7) stale

durability_verdicts_example :
    (size : ℕ) × (search_int size_pattern (line 7) ≡ some size)
    × (test_durability_volatile (line 7) ≡ returned (if ltb size 5 then data_not_correct else ok))
    × (test_durability_transient_local (line 7)
        ≡ returned (if size == 1 then ok else data_not_correct))
durability_verdicts_example = durability_verdicts (line 7) line_passes

test_large_data-ok_iff_example :
    (test_large_data (line 7) stale ≡ ok)
    ↔ ((basic_check (line 7) ≡ ok) × (max_samples_read ≤ large_prefix stale))
test_large_data-ok_iff_example = test_large_data-ok_iff (line 7) stale
