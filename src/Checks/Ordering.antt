-- ===== src/Checks/Ordering.antt =====
-- `test_order_w_instances` and `test_reliability_no_losses_w_instances`: the samples of each
-- instance arrive in order, or in order and without losses. The two functions have one loop, and
-- differ in how they compare a size with the last one of its instance.
pub mod Tracks
pub mod Trace
pub mod Rounds
pub mod Verdicts
pub mod Loop
pub mod Laws
use dds_rtps.Prelude.{
  ℕ, Bool, List, Option, Text, [], false, if◌then◌else◌, ltb, none, some, suc, text_eq, true, zero,
  ◌+◌, ◌==◌, ◌∷◌,
}
use dds_rtps.ReturnCode.{ReturnCode, data_not_correct, data_not_received, ok, same_code}
use dds_rtps.Checks.{max_samples_read}
use dds_rtps.Checks.Table.{enter, find, first_color, modify}
use dds_rtps.Child.{Feed, Outcome, eof, found, index_error, raised, returned, timeout}
use dds_rtps.Samples.{Sample, basic_check, search_sample}

-- What is kept for a color: `instance_seq_num` and `first_iteration`.
pub record Track : Type 0 where
  pub seq_num : ℕ
  pub first_iteration : Bool

abbrev pub Tracks : Type 0
Tracks = List (Text × Track)

abbrev pub fresh : ℕ → Track
fresh size = record { seq_num = size; first_iteration = true }

-- A later size is to be greater; the new sequence number, or `none` for DATA_NOT_CORRECT.
unfoldable pub greater_size : ℕ → ℕ → Option ℕ
greater_size seq_num current_size = if ltb seq_num current_size then some current_size else none

-- A later size is to be the next one.
unfoldable pub next_size : ℕ → ℕ → Option ℕ
next_size seq_num size = if seq_num + 1 == size then some (seq_num + 1) else none

module _ (advance : ℕ → ℕ → Option ℕ) where
  -- The entry of the sample's color after the sample.
  pub revise : Track → ℕ → Option Track
  revise t size =
      if t.first_iteration
      then some (record t { first_iteration = false })
      else (elim (advance t.seq_num size) [
        | none ↦ none
        | some n ↦ some (record t { seq_num = n })
      ])

  -- One sample; `none` breaks the loop with DATA_NOT_CORRECT.
  pub visit : Sample → Tracks → Option Tracks
  visit s tracks =
      let known = enter s.color (fresh s.size) tracks in
      elim (find s.color known) [
        | none ↦ none
        | some t ↦ elim (revise t s.size) [ none ↦ none | some t' ↦ some (modify s.color t' known) ]
      ]

  pub observe : Option Sample → Tracks → Option Tracks
  observe none tracks = some tracks
  observe (some s) tracks = visit s tracks

-- `sub_string is not None and sub_string.group(1) == instance_color[0]`
unfoldable pub is_first : Option Sample → Option Text → Outcome Bool
is_first none first = returned false
is_first (some s) none = raised index_error
is_first (some s) (some color) = returned (text_eq s.color color)

-- The rest of the loop after a reply of a given index: a reply of index 0 behind a sample of the
-- first instance is counted.
unfoldable pub count_sample : ℕ → Outcome Bool → ℕ → (ℕ → Outcome ReturnCode) → Outcome ReturnCode
count_sample zero (raised e) samples_read more = raised e
count_sample zero (returned b) samples_read more =
    more (if b then samples_read + 1 else samples_read)
count_sample (suc i) b samples_read more = more samples_read

-- The test of the loop, and the sample; `more` goes on with the instances.
pub order_round : ℕ → Option Tracks → (Tracks → Outcome ReturnCode) → Outcome ReturnCode
order_round samples_read tracks more =
    if ltb samples_read max_samples_read
    then (elim tracks [ none ↦ returned data_not_correct | some t ↦ more t ])
    else returned (if samples_read == max_samples_read then ok else data_not_received)

module _ (advance : ℕ → ℕ → Option ℕ) where
  pub order_loop : Tracks → ℕ → Text → Feed → Outcome ReturnCode
  order_loop tracks samples_read text [] =
      order_round samples_read (observe advance (search_sample text) tracks)
        (λ _. returned data_not_received)
  order_loop tracks samples_read text (r ∷ feed) =
      order_round samples_read (observe advance (search_sample text) tracks) λ t. elim r [
        | found i text' ↦
            count_sample i (is_first (search_sample text) (first_color t)) samples_read
              λ n. order_loop t n text' feed
        | timeout ↦ returned data_not_received
        | eof ↦ returned data_not_received
      ]

  pub check_order : Text → Feed → Outcome ReturnCode
  check_order text feed =
      if same_code (basic_check text) ok
      then order_loop [] 0 text feed
      else returned (basic_check text)

ordering : Unit {0}
unfolding check_order order_loop order_round count_sample is_first observe visit revise
ordering = tt

unfoldable pub test_order_w_instances : Text → Feed → Outcome ReturnCode
unfolding ordering greater_size
test_order_w_instances = check_order greater_size

unfoldable pub test_reliability_no_losses_w_instances : Text → Feed → Outcome ReturnCode
unfolding ordering next_size
test_reliability_no_losses_w_instances = check_order next_size
