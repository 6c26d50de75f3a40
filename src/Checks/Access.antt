-- ===== src/Checks/Access.antt =====
-- `ordered_access_w_instances`: from the order of the colors in each set of samples it is judged
-- whether the publisher orders by instance or by topic.
pub mod Laws
pub mod Codes
use mathlib.Core.Option
use dds_rtps.Prelude.{
  ℕ, Bool, List, Option, Text, [], codes, false, if◌then◌else◌, ltb, none, not, some, suc, text_eq,
  true, zero, ◌&&◌, ◌++◌, ◌+◌, ◌/◌, ◌∷◌,
}
use dds_rtps.ReturnCode.{
  ReturnCode, data_not_correct, data_not_received, ok, ordered_access_instance,
  ordered_access_topic, same_code,
}
use dds_rtps.Checks.{max_samples_read}
use dds_rtps.Child.{Feed, Outcome, eof, found, index_error, raised, returned, timeout, ◌>>=◌}
use dds_rtps.Regex.{Pattern, chr, digit, group, many, space, word}
use dds_rtps.Samples.{basic_check, search_group}
use dds_rtps.Texts.{contains, in_text}

-- `\w+\s+(\w+)\s+[0-9]+\s+[0-9]+\s+\[[0-9]+\]`
abbrev access_pattern : Pattern
access_pattern =
    many word
    ∷ many space
    ∷ group word
    ∷ many space
    ∷ many digit
    ∷ many space
    ∷ many digit
    ∷ many space
    ∷ chr b'['
    ∷ many digit
    ∷ chr b']'
    ∷ []

-- `int(0.01 * MAX_SAMPLES_READ)`
abbrev mismatch_tolerance : ℕ
mismatch_tolerance = max_samples_read / 100

-- The variables of the function.
pub record AccessState : Type 0 where
  pub produced_code : ReturnCode
  pub instance_color : List Text
  pub samples_read : ℕ
  pub previous_color : Option Text
  pub different_count : ℕ
  pub equal_count : ℕ
  pub samples_printed : Bool
  pub group_count : ℕ
  pub mismatch_count : ℕ

abbrev pub initial_access : AccessState
initial_access = record {
  produced_code = ok;
  instance_color = [];
  samples_read = 0;
  previous_color = none;
  different_count = 0;
  equal_count = 0;
  samples_printed = false;
  group_count = 0;
  mismatch_count = 0;
}

abbrev compare_color : Option Text → Text → AccessState → AccessState
compare_color none c a = a
compare_color (some p) c a =
    if text_eq c p
    then record a { equal_count = a.equal_count + 1 }
    else record a { different_count = a.different_count + 1 }

-- A sample of a color.
unfoldable pub access_sample : Text → AccessState → AccessState
unfolding contains
access_sample c a = compare_color a.previous_color c (record a {
  samples_printed = true;
  instance_color =
      if contains c a.instance_color then a.instance_color else a.instance_color ++ c ∷ [];
  previous_color = some c;
})

-- `current_behavior` of a set of samples
abbrev behavior : AccessState → Option ReturnCode
behavior a =
    if ltb a.different_count a.equal_count
    then some ordered_access_instance
    else (if ltb a.equal_count a.different_count then some ordered_access_topic else none)

abbrev code_or : ReturnCode → Option ReturnCode → ReturnCode
code_or c none = c
code_or c (some d) = d

-- `produced_code != current_behavior`
abbrev differs : ReturnCode → Option ReturnCode → Bool
differs c none = true
differs c (some d) = not (same_code c d)

-- The set is judged; `none` breaks the loop with DATA_NOT_CORRECT.
unfoldable pub judge_set : AccessState → Option AccessState
judge_set a =
    if same_code a.produced_code ok
    then some (record a { produced_code = code_or a.produced_code (behavior a) })
    else (if differs a.produced_code (behavior a)
        then (if ltb mismatch_tolerance a.mismatch_count
            then none
            else some (record a { mismatch_count = a.mismatch_count + 1 }))
        else some a)

-- The message of a new set of samples.
unfoldable pub new_set : AccessState → Option AccessState
unfolding judge_set
new_set a =
    Option.map {A = AccessState} (λ b. record b { equal_count = 0; different_count = 0 })
      (if a.samples_printed && ltb 5 (a.equal_count + a.different_count)
        then judge_set a
        else some a)

-- One output: a sample, the message, or neither.
unfoldable pub access_output : Option Text → Bool → AccessState → Option AccessState
unfolding access_sample new_set
access_output (some c) message a = some (access_sample c a)
access_output none true a = new_set a
access_output none false a = some a

-- `current_color == instance_color[0]`
unfoldable pub count_first : Option Text → List Text → ℕ → Outcome ℕ
count_first none cs n = returned n
count_first (some c) [] n = raised index_error
count_first (some c) (f ∷ cs) n = returned (if text_eq c f then n + 1 else n)

-- A reply other than TIMEOUT and EOF, by its index.
unfoldable pub access_reply : ℕ → Option Text → AccessState → Outcome AccessState
unfolding count_first
access_reply zero current a = count_first current a.instance_color a.samples_read >>= λ n.
    returned (record a { samples_read = n })
access_reply (suc zero) current a = returned (record a { group_count = a.group_count + 1 })
access_reply (suc (suc i)) current a = returned a

-- The end of the loop's body: enough sets were announced with too few samples, or the loop goes on.
access_exit : AccessState → Outcome ReturnCode → Outcome ReturnCode
access_exit a more =
    if ltb max_samples_read a.group_count
    then returned
        (if ltb a.samples_read max_samples_read then data_not_received else a.produced_code)
    else more

access_round :
    AccessState → Option AccessState → (AccessState → Outcome ReturnCode) → Outcome ReturnCode
access_round before after more =
    if ltb before.samples_read max_samples_read
    then (elim after [ none ↦ returned data_not_correct | some a ↦ more a ])
    else returned before.produced_code

pub access_loop : AccessState → Text → Feed → Outcome ReturnCode
unfolding access_output
access_loop a text [] =
    access_round a
      (access_output (search_group access_pattern text)
        (in_text (codes "Reading with ordered access") text) a)
      (λ b. returned data_not_received)
access_loop a text (r ∷ feed) =
    access_round a
      (access_output (search_group access_pattern text)
        (in_text (codes "Reading with ordered access") text) a)
      λ b. elim r [
        | found i text' ↦ access_reply i (search_group access_pattern text) b >>= λ d.
            access_exit d (access_loop d text' feed)
        | timeout ↦ returned b.produced_code
        | eof ↦ returned data_not_received
      ]

unfoldable pub ordered_access_w_instances : Text → Feed → Outcome ReturnCode
unfolding access_loop access_round access_exit access_reply access_output
ordered_access_w_instances text feed =
    if same_code (basic_check text) ok
    then access_loop initial_access text feed
    else returned (basic_check text)
