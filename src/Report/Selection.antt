-- ===== src/Report/Selection.antt =====
-- The rest of interoperability_report.py: `stop_process`, `are_tests_in_test_suite` and the part of
-- `main` that chooses the test cases and completes their parameters.
pub mod Laws
use dds_rtps.Prelude.{
  ℕ, Bool, List, Option, Text, [], codes, false, if◌then◌else◌, length, ltb, none, not, some,
  text_eq, true, ◌&&◌, ◌++◌, ◌==◌, ◌||◌, ◌∷◌,
}
use dds_rtps.ReturnCode.{ReturnCode}
use dds_rtps.Child.{
  Feed, Outcome, assertion_error, raised, returned, runtime_error, timeout_error, ◌>>=◌,
}
use dds_rtps.Report.Subscriber.{Check}
use dds_rtps.Report.Verdict.{CaseResult, run_test}
use dds_rtps.Samples.{basic_check}
use dds_rtps.Texts.{contains, decimal, in_text, lower}

-- What `stop_process` meets: `isalive()` and the time passed, at each turn of the loop.
abbrev pub Poll : Type 0
Poll = Bool × ℕ

-- The next answer of `isalive`; where the answers end, the last one stays.
abbrev pub next_alive : Bool → List Poll → Bool
next_alive alive [] = alive
next_alive alive ((alive', elapsed) ∷ polls) = alive'

-- The loop waits while the process is alive and its time is not up; `isalive` is asked once more
-- behind it. A process that has ended stays ended.
unfoldable pub still_alive : ℕ → Bool → List Poll → Bool
still_alive limit alive [] = alive
still_alive limit last ((alive, elapsed) ∷ polls) =
    let later = still_alive limit alive polls in
    if alive && ltb elapsed limit then later else alive && next_alive alive polls

-- The time limit; whether the process is alive, is interrupted with no exception, and ends its
-- output within the time of the last `expect`; the polls. The process is killed exactly if the
-- answer is `false`.
unfoldable pub stop_process : ℕ → Bool → Bool → Bool → List Poll → Outcome Bool
unfolding still_alive
stop_process limit alive interrupted output_ends polls =
    if alive && interrupted
    then (if output_ends
        then returned (not (still_alive limit true polls))
        else raised timeout_error)
    else returned true

-- The entry `check_function` of a test case: missing, a function, or something else.
pub data CheckEntry : Type 0 where
  missing not_callable : CheckEntry
  callable : Check → CheckEntry

-- An entry of the dictionary of a test suite.
pub record TestEntry : Type 0 where
  pub name : Text
  pub apps : List Text
  pub expected_codes : List ReturnCode
  pub check_function : CheckEntry

-- `i in test_suite`
unfoldable pub has_test : Text → List TestEntry → Bool
has_test name [] = false
has_test name (t ∷ suite) = text_eq name t.name || has_test name suite

all_in_suite : List TestEntry → List Text → Bool
unfolding has_test
all_in_suite suite [] = true
all_in_suite suite (name ∷ names) = has_test name suite && all_in_suite suite names

unfoldable pub are_tests_in_test_suite : List TestEntry → Option (List Text) → Bool
unfolding all_in_suite
are_tests_in_test_suite suite none = true
are_tests_in_test_suite suite (some names) = all_in_suite suite names

-- The options of the command line that the choice depends on.
pub record Options : Type 0 where
  pub publisher_path : Text
  pub subscriber_path : Text
  pub test_cases : Option (List Text)
  pub test_cases_disabled : Option (List Text)
  pub data_representation : Text
  pub periodic_announcement_ms : ℕ

-- A test case is processed if it is not disabled and, where some are chosen, is one of these.
unfoldable pub is_processed : Options → Text → Bool
unfolding contains
is_processed o name = not (disabled o.test_cases_disabled) && chosen o.test_cases
  where
    disabled : Option (List Text) → Bool
    disabled none = false
    disabled (some names) = contains name names

    chosen : Option (List Text) → Bool
    chosen none = true
    chosen (some names) = contains name names

add_representation : Options → Text → Text
unfolding in_text
add_representation o element =
    if in_text (codes "-x ") element
    then element
    else element ++ codes " -x " ++ o.data_representation

add_announcement : Options → Text → Text
unfolding in_text lower decimal
add_announcement o element =
    if ltb 0 o.periodic_announcement_ms
      && (not (in_text (codes "--periodic-announcement ") element)
          && (in_text (codes "connext") (lower o.publisher_path) && in_text (codes "-P") element))
    then element ++ codes " --periodic-announcement " ++ decimal o.periodic_announcement_ms
    else element

-- The loop over `enumerate(parameters)`, for one element.
unfoldable pub complete_element : Options → Text → Text
unfolding add_representation add_announcement
complete_element o element = add_announcement o (add_representation o element)

unfoldable pub choose_check : CheckEntry → Outcome Check
choose_check missing = returned (λ text feed. returned (basic_check text))
choose_check not_callable = raised runtime_error
choose_check (callable check) = returned check

abbrev pub map_list {ℓ κ} : {A : Type ℓ} {B : Type κ} → (A → B) → List A → List B
map_list f [] = []
map_list f (x ∷ xs) = f x ∷ map_list f xs

-- One test case; the replies of its processes are those that the map gives for its name.
unfoldable pub run_entry : Options → (Text → List Feed) → TestEntry → Outcome CaseResult
unfolding choose_check complete_element
run_entry o feeds t = choose_check t.check_function >>= λ check.
    if length t.apps == length t.expected_codes
    then run_test o.publisher_path o.subscriber_path (map_list (complete_element o) t.apps)
        t.expected_codes check (feeds t.name)
    else raised assertion_error

-- `f'{test_suite_name}_{test_case_name}'`
unfoldable pub case_name : Text → Text → Text
case_name suite_name test_name = suite_name ++ b'_' ∷ test_name

-- The cases of the report, in the order of the suite.
unfoldable pub run_entries :
    Options → (Text → List Feed) → Text → List TestEntry → Outcome (List (Text × CaseResult))
unfolding run_entry is_processed case_name
run_entries o feeds suite_name [] = returned []
run_entries o feeds suite_name (t ∷ suite) = elim (is_processed o t.name) [
  | false ↦ run_entries o feeds suite_name suite
  | true ↦ run_entry o feeds t >>= λ v. run_entries o feeds suite_name suite >>= λ vs.
      returned ((case_name suite_name t.name, v) ∷ vs)
]

unfoldable pub run_suite :
    Options → (Text → List Feed) → Text → List TestEntry → Outcome (List (Text × CaseResult))
unfolding are_tests_in_test_suite run_entries
run_suite o feeds suite_name suite =
    if are_tests_in_test_suite suite o.test_cases
      && are_tests_in_test_suite suite o.test_cases_disabled
    then run_entries o feeds suite_name suite
    else raised runtime_error
