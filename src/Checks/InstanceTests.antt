-- ===== src/Checks/InstanceTests.antt =====
-- Runs of the checks of instances, and the properties at runs that meet their hypotheses.
use dds_rtps.Prelude.{
  ℕ, Text, [], arith, codes, refl, suc, text_eq, zero, ◌%◌, ◌++◌, ◌+◌, ◌/◌, ◌∷◌, ◌≡◌, ◌≢◌,
}
use dds_rtps.ReturnCode.{data_not_correct, ok, ordered_access_instance, same_code}
use dds_rtps.Checks.Access.{ordered_access_w_instances}
use dds_rtps.Checks.EveryTen.{pace_loop, test_reading_1_sample_every_10_samples_w_instances}
use dds_rtps.Checks.EveryTen.Laws.{KeepsPace, every_10-KeepsPace, pace_loop-ne-not_correct}
use dds_rtps.Checks.Lifespan.{test_lifespan_2_3_consecutive_samples_w_instances}
use dds_rtps.Checks.Lifespan.Laws.{ExpiresInTime, lifespan-ExpiresInTime}
use dds_rtps.Checks.NotAlive.{test_disposing_w_instances, test_unregistering_w_instances}
use dds_rtps.Checks.NotAlive.Laws.{notices_in}
use dds_rtps.Checks.NotAlive.Verdicts.{AllReported, not_alive_checks-AllReported}
use dds_rtps.Checks.Ordering.Trace.{printed}
use dds_rtps.Checks.Table.{enter, find, modify}
use dds_rtps.Child.{Feed, found, returned, timeout}
use dds_rtps.Samples.{basic_check, search_group, search_int, search_sample}
use dds_rtps.Texts.{contains, in_text}

run : Unit {0}
unfolding basic_check search_sample search_int search_group find modify enter same_code text_eq
run = tt

abbrev line : ℕ → Text
line n =
    codes "S B 1 1 [" ++ ((b'0' + n / 100) ∷ (b'0' + n / 10 % 10) ∷ (b'0' + n % 10) ∷ codes "]")

-- Samples each of which is so much larger than the one before.
spaced_by : ℕ → ℕ → ℕ → Feed
spaced_by step zero size = []
spaced_by step (suc n) size = found 0 (line size) ∷ spaced_by step n (size + step)

paced_run :
    test_reading_1_sample_every_10_samples_w_instances (line 1) (spaced_by 10 50 11) ≡ returned ok
unfolding test_reading_1_sample_every_10_samples_w_instances run spaced_by
paced_run = refl

every_10-KeepsPace_example : KeepsPace (printed (line 1) (spaced_by 10 50 11))
every_10-KeepsPace_example = every_10-KeepsPace (line 1) (spaced_by 10 50 11) paced_run

pace_loop-ne-not_correct_example :
    pace_loop [] 45 (line 1) (spaced_by 1 9 2) ≢ returned data_not_correct
pace_loop-ne-not_correct_example =
    pace_loop-ne-not_correct [] 45 (line 1) (spaced_by 1 9 2) (omega arith)

abbrev expiring : Feed
expiring = found 0 (line 2) ∷ found 0 (line 12) ∷ timeout ∷ []

expiring_run : test_lifespan_2_3_consecutive_samples_w_instances (line 1) expiring ≡ returned ok
unfolding test_lifespan_2_3_consecutive_samples_w_instances run
expiring_run = refl

lifespan-ExpiresInTime_example : ExpiresInTime (printed (line 1) expiring)
lifespan-ExpiresInTime_example = lifespan-ExpiresInTime (line 1) expiring expiring_run

abbrev leaving : Feed
leaving = found 0 (codes "S B NOT_ALIVE_NO_WRITERS_INSTANCE_STATE") ∷ []

leaving_run : test_unregistering_w_instances (line 1) leaving ≡ returned ok
unfolding test_unregistering_w_instances run contains
leaving_run = refl

not_alive_checks-AllReported_example :
    ((test_unregistering_w_instances (line 1) leaving ≡ returned ok)
      → AllReported (notices_in (codes "NOT_ALIVE_NO_WRITERS_INSTANCE_STATE") (line 1) leaving))
    × ((test_disposing_w_instances (line 1) leaving ≡ returned ok)
        → AllReported (notices_in (codes "NOT_ALIVE_DISPOSED_INSTANCE_STATE") (line 1) leaving))
not_alive_checks-AllReported_example = not_alive_checks-AllReported (line 1) leaving

-- A sample, by its color.
abbrev colored : ℕ → Text
colored c = codes "S " ++ (c ∷ codes " 1 1 [5]")

abbrev by_instance : Feed
by_instance =
    found 0 (colored b'A')
    ∷ found 0 (colored b'A')
    ∷ found 0 (colored b'A')
    ∷ found 0 (colored b'A')
    ∷ found 0 (colored b'B')
    ∷ found 0 (colored b'B')
    ∷ found 1 (codes "Reading with ordered access")
    ∷ timeout
    ∷ []

by_instance_run :
    ordered_access_w_instances (colored b'A') by_instance ≡ returned ordered_access_instance
unfolding ordered_access_w_instances run contains in_text
by_instance_run = refl
