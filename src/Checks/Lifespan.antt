-- ===== src/Checks/Lifespan.antt =====
-- `test_lifespan_2_3_consecutive_samples_w_instances`: of each instance two or three consecutive
-- samples arrive at a time, as the others expire.
pub mod Bursts
pub mod Enough
pub mod Laws
use dds_rtps.Prelude.{
  ℕ, Bool, Option, Text, [], false, if◌then◌else◌, ltb, none, some, true, ◌+◌, ◌/◌, ◌==◌, ◌||◌, ◌∷◌,
}
use dds_rtps.ReturnCode.{ReturnCode, data_not_correct, data_not_received, ok, same_code}
use dds_rtps.Checks.{max_samples_read}
use dds_rtps.Checks.Instances.{Seen, observe_instance}
use dds_rtps.Checks.Ordering.{count_sample, is_first}
use dds_rtps.Checks.Table.{first_color}
use dds_rtps.Child.{Feed, Outcome, eof, found, returned, timeout}
use dds_rtps.Samples.{basic_check, search_sample}

-- `MAX_SAMPLES_READ / 10`
abbrev pub max_samples_lifespan : ℕ
max_samples_lifespan = max_samples_read / 10

-- What is kept for a color.
pub record Burst : Type 0 where
  pub previous_seq_num : ℕ
  pub first_iteration : Bool
  pub consecutive_samples : ℕ
  pub ignore_first_sample : Bool

abbrev pub new_burst : ℕ → Burst
new_burst size = record {
  previous_seq_num = size;
  first_iteration = true;
  consecutive_samples = 1;
  ignore_first_sample = true;
}

-- A sample that does not follow the last one of its instance; the Boolean is
-- `lifespan_expiration_observed`, which is set together with the code OK.
end_burst : Burst → ℕ → Option (Burst × Bool)
end_burst b size =
    if b.consecutive_samples == 3 || b.consecutive_samples == 2
    then some (record b { previous_seq_num = size; consecutive_samples = 1 }, true)
    else (if b.ignore_first_sample
        then some (record b { previous_seq_num = size; ignore_first_sample = false }, false)
        else none)

unfoldable pub burst_step : Burst → ℕ → Option (Burst × Bool)
unfolding end_burst
burst_step b size =
    if b.first_iteration
    then some (record b { first_iteration = false }, false)
    else (if b.previous_seq_num + 1 == size
        then some (
          record b {
            previous_seq_num = size;
            consecutive_samples = b.consecutive_samples + 1;
            ignore_first_sample = false;
          },
          false,
        )
        else end_burst b size)

-- `produced_code` behind a TIMEOUT
abbrev timeout_code : Bool → ReturnCode
timeout_code expired = if expired then ok else data_not_received

-- The loop runs while fewer than the maximum are read; a sample that is refused breaks it with
-- DATA_NOT_CORRECT. `expired` is `lifespan_expiration_observed`.
burst_round :
    ℕ
    → Bool
    → Option (Seen Burst × Bool)
    → (Seen Burst → Bool → Outcome ReturnCode)
    → Outcome ReturnCode
burst_round samples_read expired seen more =
    if ltb samples_read max_samples_lifespan
    then (elim seen [
      | none ↦ returned data_not_correct
      | some (t, noticed) ↦ more t (expired || noticed)
    ])
    else returned (
        if samples_read == max_samples_lifespan
        then (if expired then ok else data_not_correct)
        else timeout_code expired)

pub burst_loop : Seen Burst → ℕ → Bool → Text → Feed → Outcome ReturnCode
burst_loop seen samples_read expired text [] =
    burst_round samples_read expired
      (observe_instance new_burst burst_step (search_sample text) seen)
      (λ _ _. returned data_not_received)
burst_loop seen samples_read expired text (r ∷ feed) =
    burst_round samples_read expired
      (observe_instance new_burst burst_step (search_sample text) seen)
      λ t expired'. elim r [
        | found i text' ↦
            count_sample i (is_first (search_sample text) (first_color t)) samples_read
              λ n. burst_loop t n expired' text' feed
        | timeout ↦ returned (timeout_code expired')
        | eof ↦ returned data_not_received
      ]

unfoldable pub test_lifespan_2_3_consecutive_samples_w_instances : Text → Feed → Outcome ReturnCode
unfolding burst_loop burst_round burst_step count_sample is_first observe_instance
test_lifespan_2_3_consecutive_samples_w_instances text feed =
    if same_code (basic_check text) ok
    then burst_loop [] 0 false text feed
    else returned (basic_check text)
