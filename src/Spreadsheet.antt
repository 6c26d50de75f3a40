-- ===== src/Spreadsheet.antt =====
-- generate_xlsx_report.py: the names of the products, and the data that JunitData collects.
pub mod Collecting
pub mod Listing
mod Tests
use dds_rtps.Prelude.{
  ℕ, Bool, List, Text, [], codes, false, if◌then◌else◌, leb, none, not, some, text_eq, ◌&&◌, ◌++◌,
  ◌+◌, ◌-◌, ◌==◌, ◌||◌, ◌∷◌,
}
use dds_rtps.ReturnCode.{value}
use dds_rtps.Child.{Outcome, raised, returned, runtime_error}
use dds_rtps.Counts.{count_where}
use dds_rtps.Regex.{chr, digit, group, literal, many, search_text, space}
use dds_rtps.Texts.{in_text, lower}
use dds_rtps.Texts.Edit.{strip}

-- TestStatus
pub data TestStatus : Type 0 where
  has_passed has_not_passed pub_unsupported sub_unsupported pub_sub_unsupported : TestStatus

-- `get_company_name`
unfoldable pub get_company_name : Text → Outcome Text
unfolding in_text lower
get_company_name product =
    let p = lower product in
    if in_text (codes "connext") p
    then returned (codes "Real-Time Innovations (RTI)")
    else if in_text (codes "opendds") p
    then returned (codes "OpenDDS Foundation")
    else if in_text (codes "coredx") p
    then returned (codes "Twin Oaks Computing, Inc")
    else if in_text (codes "intercom") p
    then returned (codes "Kongsberg")
    else if in_text (codes "fastdds") p
    then returned (codes "eProsima")
    else if in_text (codes "dust") p
    then returned (codes "S2E Software Systems")
    else if in_text (codes "hdds") p
    then returned (codes "Naskel")
    else if in_text (codes "cyclone") p
    then returned (codes "Eclipse Foundation")
    else if in_text (codes "zzdds") p || in_text (codes "zenzen") p
    then returned (codes "Zenzen IoT")
    else raised runtime_error

-- `[\d.]`
digit_or_point : ℕ → Bool
unfolding digit
digit_or_point c = digit c || c == b'.'

-- The version behind a blank, where there is one
version_suffix : Text → Text
unfolding search_text digit_or_point
version_suffix product = elim (search_text (group digit_or_point ∷ []) product) [
  | some m ↦ b' ' ∷ m.whole
  | none ↦ []
]

-- `get_product_name`
unfoldable pub get_product_name : Text → Text
unfolding in_text lower version_suffix strip
get_product_name product =
    let p = lower product in
    let named = λ (title : Text). strip (title ++ version_suffix product) in
    if in_text (codes "connext") p && in_text (codes "micro") p
    then named (codes "Connext DDS Micro")
    else if in_text (codes "connext") p
    then named (codes "Connext DDS")
    else if in_text (codes "opendds") p
    then named (codes "OpenDDS")
    else if in_text (codes "coredx") p
    then named (codes "CoreDX DDS")
    else if in_text (codes "intercom") p
    then named (codes "InterCOM DDS")
    else if in_text (codes "fastdds") p
    then named (codes "FastDDS")
    else if in_text (codes "dust_dds") p
    then named (codes "Dust DDS")
    else if in_text (codes "hdds") p
    then named (codes "HDDS")
    else if in_text (codes "cyclone") p
    then named (codes "Cyclone DDS")
    else if in_text (codes "zzdds") p
    then named (codes "Zenzen DDS")
    else product

-- An integer that is made by subtractions, as what is taken from what; it may be below 0.
pub record Difference : Type 0 where
  pub plus : ℕ
  pub minus : ℕ

-- JunitAggregatedData
pub record AggregatedData : Type 0 where
  pub passed_tests : Difference
  pub total_tests : ℕ
  pub unsupported_tests : ℕ

abbrev pub add_data : AggregatedData → AggregatedData → AggregatedData
add_data a b = record {
  passed_tests = record {
    plus = a.passed_tests.plus + b.passed_tests.plus;
    minus = a.passed_tests.minus + b.passed_tests.minus;
  };
  total_tests = a.total_tests + b.total_tests;
  unsupported_tests = a.unsupported_tests + b.unsupported_tests;
}

-- JunitTestCaseAggregatedData
pub record TestCaseData : Type 0 where
  pub product : Text
  pub tested : Text
  pub outcome : TestStatus

-- What junitparser makes of a test case: its name, the messages of its results, and `is_passed`
pub record SuiteCase : Type 0 where
  pub case_title : Text
  pub messages : List Text
  pub is_passed : Bool

-- What junitparser makes of a suite: the numbers are those of its attributes.
pub record Suite : Type 0 where
  pub title : Text
  pub suite_cases : List SuiteCase
  pub tests : ℕ
  pub failed_tests : ℕ
  pub skipped_tests : ℕ
  pub error_tests : ℕ

module _ {K V : Type 0} (same : K → K → Bool) where
  -- `d[key] = join(d[key], value)`, or the value where the key is new
  unfoldable pub update_value : (V → V → V) → K → V → List (K × V) → List (K × V)
  update_value join_values key value [] = (key, value) ∷ []
  update_value join_values key value ((k, v) ∷ d) =
      if same k key
      then (k, join_values v value) ∷ d
      else (k, v) ∷ update_value join_values key value d

abbrev pub same_pair : Text × Text → Text × Text → Bool
same_pair a b = text_eq a.0 b.0 && text_eq a.1 b.1

-- JunitData
pub record JunitData : Type 0 where
  pub summary_dict : List (Text × AggregatedData)
  pub product_summary_dict : List ((Text × Text) × AggregatedData)
  pub publisher_product_dict : List (Text × List TestCaseData)
  pub subscriber_product_dict : List (Text × List TestCaseData)

abbrev pub no_data : JunitData
no_data = record {
  summary_dict = [];
  product_summary_dict = [];
  publisher_product_dict = [];
  subscriber_product_dict = [];
}

-- `\S`
no_space : ℕ → Bool
unfolding space
no_space c = not (space c)

-- The two names of a suite; without `---` its title is both.
unfoldable pub suite_products : Text → Text × Text
unfolding search_text get_product_name no_space
suite_products title =
    let pattern = group no_space ∷ chr b'-' ∷ chr b'-' ∷ chr b'-' ∷ group no_space ∷ [] in
    let same_names : Text × Text = (get_product_name title, get_product_name title) in
    elim (search_text pattern title) [
      | some m ↦ elim m.groups [
        | p ∷ rest_groups ↦ elim rest_groups [
          | s ∷ more ↦ (get_product_name p, get_product_name s)
          | [] ↦ same_names
        ]
        | [] ↦ same_names
      ]
      | none ↦ same_names
    ]

-- The two products of a suite
unfoldable pub names_of : Suite → Text × Text
unfolding suite_products
names_of s = suite_products s.title

-- The name of the test in the name of the case
unfoldable pub test_of : Text → Text
unfolding search_text no_space
test_of case_title =
    elim (search_text (literal (codes "Test_") ++ (many no_space ∷ chr b'_' ∷ many digit ∷ []))
      case_title) [ some m ↦ m.whole | none ↦ case_title ]

upper : Text → Text
upper [] = []
upper (c ∷ s) = (if leb b'a' c && leb c b'z' then c - 32 else c) ∷ upper s

-- Does the first message name the code?
unfoldable pub tells_code : Text → List Text → Bool
unfolding in_text upper
tells_code code_name [] = false
tells_code code_name (m ∷ ms) = in_text code_name (upper m)

abbrev pub is_pub_unsupported : SuiteCase → Bool
is_pub_unsupported c = tells_code (codes "PUB_UNSUPPORTED_FEATURE") c.messages

abbrev pub is_sub_unsupported : SuiteCase → Bool
is_sub_unsupported c = tells_code (codes "SUB_UNSUPPORTED_FEATURE") c.messages

-- The status of a case
unfoldable pub status_of : SuiteCase → TestStatus
unfolding tells_code
status_of c =
    if c.is_passed
    then has_passed
    else if is_pub_unsupported c && is_sub_unsupported c
    then pub_sub_unsupported
    else if is_pub_unsupported c
    then pub_unsupported
    else if is_sub_unsupported c
    then sub_unsupported
    else has_not_passed

unfoldable pub case_data : Text → SuiteCase → TestCaseData
unfolding test_of status_of
case_data product c = record {
  product = product;
  tested = test_of c.case_title;
  outcome = status_of c;
}

-- `append` to the list of a key
unfoldable pub append_case :
    Text → TestCaseData → List (Text × List TestCaseData) → List (Text × List TestCaseData)
unfolding update_value text_eq
append_case key value d = update_value text_eq (λ a b. a ++ b) key (value ∷ []) d

-- The loop over the cases of a suite, for the publisher's or the subscriber's dictionary
unfoldable pub append_cases :
    Text → Text → List SuiteCase → List (Text × List TestCaseData) → List (Text × List TestCaseData)
unfolding append_case case_data
append_cases key product [] d = d
append_cases key product (c ∷ cs) d =
    append_cases key product cs (append_case key (case_data product c) d)

unfoldable pub count_unsupported : List SuiteCase → ℕ
unfolding tells_code
count_unsupported cs = count_where (λ c. is_pub_unsupported c || is_sub_unsupported c) cs

unfoldable pub suite_data : Suite → AggregatedData
unfolding count_unsupported
suite_data s = record {
  passed_tests = record {
    plus = s.tests;
    minus = s.failed_tests + s.skipped_tests + s.error_tests;
  };
  total_tests = s.tests;
  unsupported_tests = count_unsupported s.suite_cases;
}

unfoldable pub add_suite : Suite → JunitData → JunitData
unfolding names_of append_cases suite_data update_value text_eq
add_suite s d =
    let pub_name = (names_of s).0 in
    let sub_name = (names_of s).1 in
    let element = suite_data s in
    let once = update_value text_eq add_data pub_name element d.summary_dict in
    record {
      summary_dict =
          if text_eq pub_name sub_name
          then once
          else update_value text_eq add_data sub_name element once;
      product_summary_dict =
          update_value same_pair add_data (pub_name, sub_name) element d.product_summary_dict;
      publisher_product_dict =
          append_cases pub_name sub_name s.suite_cases d.publisher_product_dict;
      subscriber_product_dict =
          append_cases sub_name pub_name s.suite_cases d.subscriber_product_dict;
    }

-- `get_info`, the loop over the suites
unfoldable pub get_info : List Suite → JunitData → JunitData
unfolding add_suite
get_info [] d = d
get_info (s ∷ suites) d = get_info suites (add_suite s d)
