-- ===== src/Report/Verdict.antt =====
-- `run_test`: a process for each list of parameters, and the verdict on the codes that they produce.
-- Of the report for a test that does not pass the table is modelled, not its HTML nor the console.
pub mod Entities
pub mod Laws
use dds_rtps.Prelude.{
  ℕ, Bool, List, Text, [], codes, false, if◌then◌else◌, ltb, none, some, true, ◌&&◌, ◌+◌, ◌||◌, ◌∷◌,
}
use dds_rtps.ReturnCode.{ReturnCode, pub_unsupported_feature, same_code, sub_unsupported_feature}
use dds_rtps.Child.{
  Feed, Outcome, attribute_error, index_error, raised, returned, runtime_error, ◌>>=◌,
}
use dds_rtps.Report.{Produced, has_option}
use dds_rtps.Report.Publisher.{run_publisher_shape_main}
use dds_rtps.Report.Subscriber.{Check, run_subscriber_shape_main}

pub data Kind : Type 0 where
  publisher subscriber : Kind

-- `-P` comes before `-S`.
unfoldable pub kind_of : Text → Outcome Kind
kind_of element =
    if has_option (codes "-P") element
    then returned publisher
    else (if has_option (codes "-S") element then returned subscriber else raised runtime_error)

-- The first loop: `publishers_finished`, `samples_sent` and `last_sample_saved` get one element for
-- each publisher, `subscribers_finished` one for each subscriber; their lengths are returned.
abbrev pub count_kind : Kind → ℕ × ℕ → ℕ × ℕ
count_kind publisher n = (n.0 + 1, n.1)
count_kind subscriber n = (n.0, n.1 + 1)

unfoldable pub prepare : List Text → ℕ × ℕ → Outcome (ℕ × ℕ)
unfolding kind_of
prepare [] n = returned n
prepare (element ∷ parameters) n = kind_of element >>= λ k. prepare parameters (count_kind k n)

-- A process and the name of its entity, as `Publisher_1`: the kind and the number.
pub record Process : Type 0 where
  pub kind : Kind
  pub number : ℕ
  pub name_executable : Text
  pub parameters : Text
  pub produced_code_index : ℕ

-- The arguments of a process; the lists of events and queues are read at the number so far.
module _ (name_executable_pub name_executable_sub : Text) (available : ℕ × ℕ) where
  unfoldable pub new_process : Kind → ℕ → ℕ × ℕ → Text → Outcome Process
  new_process publisher i n element =
      if ltb n.0 available.0
      then returned (record {
        kind = publisher;
        number = n.0 + 1;
        name_executable = name_executable_pub;
        parameters = element;
        produced_code_index = i;
      })
      else raised index_error
  new_process subscriber i n element =
      if ltb n.1 available.1
      then returned (record {
        kind = subscriber;
        number = n.1 + 1;
        name_executable = name_executable_sub;
        parameters = element;
        produced_code_index = i;
      })
      else raised index_error

  -- The second loop, from entity i.
  unfoldable pub create_processes : ℕ → ℕ × ℕ → List Text → Outcome (List Process)
  unfolding kind_of new_process
  create_processes i n [] = returned []
  create_processes i n (element ∷ parameters) = kind_of element >>= λ k.
      new_process k i n element >>= λ p.
      create_processes (i + 1) (count_kind k n) parameters >>= λ ps. returned (p ∷ ps)

-- What a process writes to its index of `return_codes`, from its replies; a process that raises
-- writes nothing.
abbrev written : Outcome Produced → Produced
written (returned c) = c
written (raised e) = none

abbrev pub run_process : Check → Process → Feed → Produced
run_process check p feed = elim p.kind [
  | publisher ↦ (run_publisher_shape_main p.parameters feed).code
  | subscriber ↦ written (run_subscriber_shape_main check feed)
]

-- A process with no replies reads EOF.
abbrev pub return_codes : Check → List Process → List Feed → List Produced
return_codes check [] feeds = []
return_codes check (p ∷ ps) [] = run_process check p [] ∷ return_codes check ps []
return_codes check (p ∷ ps) (feed ∷ feeds) = run_process check p feed ∷ return_codes check ps feeds

-- `expected == produced`; the number of the index is no member of the enumeration.
unfoldable pub is_expected : ReturnCode → Produced → Bool
is_expected c none = false
is_expected c (some d) = same_code c d

-- `test_result_correct`
unfoldable pub all_expected : List ReturnCode → List Produced → Outcome Bool
unfolding is_expected
all_expected expected [] = returned true
all_expected [] (c ∷ produced) = raised index_error
all_expected (e ∷ expected) (c ∷ produced) =
    all_expected expected produced >>= λ b. returned (is_expected e c && b)

unfoldable pub is_unsupported_code : Produced → Bool
is_unsupported_code none = false
is_unsupported_code (some c) =
    same_code c pub_unsupported_feature || same_code c sub_unsupported_feature

-- `is_unsupported`
unfoldable pub any_unsupported : List Produced → Bool
unfolding is_unsupported_code
any_unsupported [] = false
any_unsupported (c ∷ produced) = is_unsupported_code c || any_unsupported produced

-- A row of the table: an entity, `expected_codes[i].name` and `return_codes[i].name`.
pub record Row : Type 0 where
  pub entity : Process
  pub expected_code : ReturnCode
  pub code_produced : ReturnCode

unfoldable pub table : List Process → List ReturnCode → List Produced → Outcome (List Row)
table [] expected produced = returned []
table (p ∷ ps) [] produced = raised index_error
table (p ∷ ps) (e ∷ expected) [] = raised index_error
table (p ∷ ps) (e ∷ expected) (none ∷ produced) = raised attribute_error
table (p ∷ ps) (e ∷ expected) (some c ∷ produced) = table ps expected produced >>= λ rows.
    returned (record { entity = p; expected_code = e; code_produced = c } ∷ rows)

-- `test_case.result`: none, Skipped with a message or Failure with a message.
pub data CaseResult : Type 0 where
  result_ok : CaseResult
  result_skipped result_failed : List Row → CaseResult

unfoldable pub judge : List Process → List ReturnCode → List Produced → Outcome CaseResult
unfolding all_expected any_unsupported table
judge ps expected produced = all_expected expected produced >>= λ correct.
    if correct
    then returned result_ok
    else (if any_unsupported produced
        then (table ps expected produced >>= λ rows. returned (result_skipped rows))
        else (table ps expected produced >>= λ rows. returned (result_failed rows)))

-- The replies of each process are the last argument.
unfoldable pub run_test :
    Text → Text → List Text → List ReturnCode → Check → List Feed → Outcome CaseResult
unfolding prepare create_processes judge
run_test name_executable_pub name_executable_sub parameters expected_codes check feeds =
    prepare parameters (0, 0) >>= λ available.
    create_processes name_executable_pub name_executable_sub available 0 (0, 0) parameters >>= λ ps.
    judge ps expected_codes (return_codes check ps feeds)
