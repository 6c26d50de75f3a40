-- ===== src/Checks/EveryTen.antt =====
-- `test_reading_1_sample_every_10_samples_w_instances`: with a time-based filter one sample out of
-- ten arrives for each instance.
pub mod Laws
use dds_rtps.Prelude.{
  ℕ, Bool, Option, Text, [], false, if◌then◌else◌, leb, ltb, none, some, true, ◌*◌, ◌+◌, ◌-◌, ◌/◌,
  ◌∷◌,
}
use dds_rtps.ReturnCode.{ReturnCode, data_not_correct, data_not_received, ok, same_code}
use dds_rtps.Checks.{max_samples_read}
use dds_rtps.Checks.Instances.{Seen, observe_instance}
use dds_rtps.Checks.Ordering.{count_sample, is_first}
use dds_rtps.Checks.Table.{first_color}
use dds_rtps.Child.{Feed, Outcome, eof, found, returned, timeout}
use dds_rtps.Samples.{basic_check, search_sample}

-- `MAX_SAMPLES_READ / 10`, a tenth of it and nine tenths of it, which the source computes in floating
-- point: 50.0, 5.0 and 45.0, all exact.
abbrev pub max_samples_received : ℕ
max_samples_received = max_samples_read / 10

abbrev pub missed_tolerance : ℕ
missed_tolerance = max_samples_received / 10

abbrev pub enough_samples : ℕ
enough_samples = max_samples_received * 9 / 10

-- What is kept for a color.
pub record Pace : Type 0 where
  pub seq_num : ℕ
  pub first_iteration : Bool
  pub ignore_first_sample : Bool
  pub missed_samples : ℕ

abbrev pub new_pace : ℕ → Pace
new_pace size = record {
  seq_num = size;
  first_iteration = true;
  ignore_first_sample = true;
  missed_samples = 0;
}

-- `max(0, (gap - 10) // 10)` for a gap of 9 at least, where `-` stops at 0
abbrev pub missed_in_gap : ℕ → ℕ
missed_in_gap gap = (gap - 10) / 10

-- A later sample than the first two; `gap < 9` is tested with no subtraction, as the gap may be
-- negative.
keep_pace : Pace → ℕ → Option (Pace × Bool)
keep_pace p current =
    let missed = p.missed_samples + missed_in_gap (current - p.seq_num) in
    if ltb current (p.seq_num + 9)
    then none
    else (if ltb missed_tolerance missed
        then none
        else some (record p { seq_num = current; missed_samples = missed }, false))

-- One sample of the instance. This loop notices nothing else of it.
unfoldable pub pace_step : Pace → ℕ → Option (Pace × Bool)
unfolding keep_pace
pace_step p size =
    if p.first_iteration
    then some (record p { first_iteration = false }, false)
    else (if p.ignore_first_sample
        then some (record p { seq_num = size; ignore_first_sample = false }, false)
        else keep_pace p size)

-- Behind the loop: nine tenths of the samples make it OK, whatever ended the loop.
unfoldable pub pace_verdict : ℕ → ReturnCode → Outcome ReturnCode
pace_verdict samples_read produced_code =
    returned (if leb enough_samples samples_read then ok else produced_code)

pace_round : ℕ → Option (Seen Pace × Bool) → (Seen Pace → Outcome ReturnCode) → Outcome ReturnCode
pace_round samples_read seen more =
    if ltb samples_read max_samples_received
    then (elim seen [
      | none ↦ pace_verdict samples_read data_not_correct
      | some (t, noticed) ↦ more t
    ])
    else pace_verdict samples_read data_not_received

pub pace_loop : Seen Pace → ℕ → Text → Feed → Outcome ReturnCode
pace_loop seen samples_read text [] =
    pace_round samples_read (observe_instance new_pace pace_step (search_sample text) seen)
      (λ _. returned data_not_received)
pace_loop seen samples_read text (r ∷ feed) =
    pace_round samples_read (observe_instance new_pace pace_step (search_sample text) seen) λ t.
      elim r [
        | found i text' ↦
            count_sample i (is_first (search_sample text) (first_color t)) samples_read
              λ n. pace_loop t n text' feed
        | timeout ↦ pace_verdict samples_read data_not_received
        | eof ↦ returned data_not_received
      ]

unfoldable pub test_reading_1_sample_every_10_samples_w_instances : Text → Feed → Outcome ReturnCode
unfolding pace_loop pace_round pace_verdict pace_step count_sample is_first observe_instance
test_reading_1_sample_every_10_samples_w_instances text feed =
    if same_code (basic_check text) ok
    then pace_loop [] 0 text feed
    else returned (basic_check text)
