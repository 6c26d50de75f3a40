-- ===== src/Checks/NotAlive.antt =====
-- `test_unregistering_w_instances` and `test_disposing_w_instances`: each instance that was seen is
-- reported as not alive. The two functions differ in the state that they look for.
pub mod Laws
pub mod Colors
pub mod Verdicts
use dds_rtps.Prelude.{
  ℕ, Bool, List, Option, Text, [], codes, false, if◌then◌else◌, length, ltb, none, some, suc,
  text_eq, true, zero, ◌&&◌, ◌++◌, ◌+◌, ◌==◌, ◌∷◌,
}
use dds_rtps.ReturnCode.{ReturnCode, data_not_correct, data_not_received, ok, same_code}
use dds_rtps.Checks.{max_samples_read}
use dds_rtps.Child.{Feed, Outcome, eof, found, index_error, raised, returned, timeout}
use dds_rtps.Samples.{Sample, basic_check, search_group, search_sample, state_pattern}
use dds_rtps.Texts.{contains}

-- `append`, if the color is not there
abbrev add : Text → List Text → List Text
add c cs = if contains c cs then cs else cs ++ c ∷ []

includes : List Text → List Text → Bool
includes [] ds = true
includes (c ∷ cs) ds = contains c ds && includes cs ds

-- `set(a) == set(b)`
unfoldable pub same_set : List Text → List Text → Bool
unfolding includes contains
same_set cs ds = includes cs ds && includes ds cs

-- What an output holds: a sample of an instance, the report that an instance is not alive, or
-- neither.
pub data Notice : Type 0 where
  a_sample a_report : Text → Notice
  nothing : Notice

abbrev report_or : Option Text → Notice
report_or none = nothing
report_or (some c) = a_report c

abbrev sample_or : Option Sample → Notice → Notice
sample_or none other = other
sample_or (some s) other = a_sample s.color

-- The text of the state, as `NOT_ALIVE_DISPOSED_INSTANCE_STATE`.
module _ (state : Text) where
  unfoldable pub notice : Text → Notice
  unfolding search_sample search_group
  notice text = sample_or (search_sample text) (report_or (search_group (state_pattern state) text))

-- `instance_color` and `unregistered_instance_color` or `disposed_instance_color`.
pub record ColorLists : Type 0 where
  pub seen : List Text
  pub gone : List Text

-- Behind the loop: both lists hold the same colors, and some.
abbrev pub not_alive_verdict : ColorLists → ReturnCode
not_alive_verdict cs =
    if length cs.seen == 0
    then data_not_received
    else (if same_set cs.seen cs.gone then ok else data_not_correct)

-- One output. `true` breaks the loop: as many instances are reported as were seen.
unfoldable pub take_notice : Notice → ColorLists → ColorLists × Bool
unfolding contains
take_notice (a_sample c) cs = (record cs { seen = add c cs.seen }, false)
take_notice (a_report c) cs =
    if contains c cs.gone
    then (cs, false)
    else (let gone = cs.gone ++ c ∷ [] in
        (record cs { gone = gone }, length cs.seen == length gone))
take_notice nothing cs = (cs, false)

abbrev head_color : List Text → Option Text
head_color [] = none
head_color (c ∷ cs) = some c

-- `sub_string is not None and sub_string.group(1) == instance_color[0]`
is_first_notice : Notice → Option Text → Outcome Bool
is_first_notice nothing first = returned false
is_first_notice (a_sample c) none = raised index_error
is_first_notice (a_sample c) (some f) = returned (text_eq c f)
is_first_notice (a_report c) none = raised index_error
is_first_notice (a_report c) (some f) = returned (text_eq c f)

-- The reply is a sample or a report; a notice of the first instance is counted.
abbrev count_notice : ℕ → Outcome Bool → ℕ → (ℕ → Outcome ReturnCode) → Outcome ReturnCode
count_notice zero (raised e) samples_read more = raised e
count_notice zero (returned b) samples_read more =
    more (if b then samples_read + 1 else samples_read)
count_notice (suc i) first samples_read more = more samples_read

not_alive_round : ℕ → Notice → ColorLists → (ColorLists → Outcome ReturnCode) → Outcome ReturnCode
not_alive_round samples_read n cs more =
    if ltb samples_read max_samples_read
    then (let (cs', stop) = take_notice n cs in
        if stop then returned (not_alive_verdict cs') else more cs')
    else returned (not_alive_verdict cs)

module _ (state : Text) where
  pub not_alive_loop : ColorLists → ℕ → Text → Feed → Outcome ReturnCode
  not_alive_loop cs samples_read text [] =
      not_alive_round samples_read (notice state text) cs (λ _. returned data_not_received)
  not_alive_loop cs samples_read text (r ∷ feed) =
      not_alive_round samples_read (notice state text) cs λ cs'. elim r [
        | found i text' ↦
            count_notice i (is_first_notice (notice state text) (head_color cs'.seen)) samples_read
              λ n. not_alive_loop cs' n text' feed
        | timeout ↦ returned (not_alive_verdict cs')
        | eof ↦ returned data_not_received
      ]

  check_not_alive : Text → Feed → Outcome ReturnCode
  check_not_alive text feed =
      if same_code (basic_check text) ok
      then not_alive_loop (record { seen = []; gone = [] }) 0 text feed
      else returned (basic_check text)

not_alive : Unit {0}
unfolding check_not_alive not_alive_loop not_alive_round is_first_notice take_notice notice same_set
not_alive = tt

unfoldable pub test_unregistering_w_instances : Text → Feed → Outcome ReturnCode
unfolding not_alive
test_unregistering_w_instances = check_not_alive (codes "NOT_ALIVE_NO_WRITERS_INSTANCE_STATE")

unfoldable pub test_disposing_w_instances : Text → Feed → Outcome ReturnCode
unfolding not_alive
test_disposing_w_instances = check_not_alive (codes "NOT_ALIVE_DISPOSED_INSTANCE_STATE")
