-- ===== src/Junit/Results.antt =====
-- TestResult of models.py with its labels, and `load_results` of loader.py. What `xml.etree` makes of a
-- report is the argument: attributes in the order of the document, and the elements in it.
use dds_rtps.Prelude.{
  Bool, List, Option, Text, [], codes, false, if◌then◌else◌, none, some, text_eq, true, ◌&&◌, ◌++◌,
  ◌||◌, ◌∷◌,
}
use dds_rtps.Child.{Outcome, raised, returned, value_error, ◌>>=◌}
use dds_rtps.Junit.{OutcomeRow, RichStatus, XmlTag, tag_error, tag_failure, tag_passed, tag_skipped}
use dds_rtps.Junit.Classify.{classify_outcome}
use dds_rtps.Junit.Tables.{parse_outcome_rows}
use dds_rtps.Prelude.Sorting.{sorted, text_leb}
use dds_rtps.Report.Selection.{map_list}
use dds_rtps.Texts.Edit.{is_filled, join, strip}

abbrev pub Attributes : Type 0
Attributes = List (Text × Text)

-- `<failure>`, `<error>` or `<skipped>`: its message, empty where there is none, and its inner text
pub record Node : Type 0 where
  pub message : Text
  pub inner_text : Text

-- `<testcase>`
pub record CaseElement : Type 0 where
  pub attrib : Attributes
  pub failure_node : Option Node
  pub error_node : Option Node
  pub skipped_node : Option Node

-- `<testsuite>`: its name, and its cases
pub record SuiteElement : Type 0 where
  pub suite_name : Text
  pub cases : List CaseElement

pub record ReportElement : Type 0 where
  pub root_attrib : Attributes
  pub suites : List SuiteElement

pub record TestResult : Type 0 where
  pub suite : Text
  pub case_name : Text
  pub attributes : Attributes
  pub status : XmlTag
  pub status_class : RichStatus
  pub detail : Text
  pub time : Text
  pub outcome_rows : List OutcomeRow

-- `key`
abbrev pub Key : Type 0
Key = Text × (Text × Attributes)

abbrev pub key_of : TestResult → Key
key_of r = (r.suite, (r.case_name, r.attributes))

pair_text : Text × Text → Text
pair_text (k, v) = k ++ (b'=' ∷ v)

-- `key_label`
unfoldable pub key_label : Key → Text
unfolding join pair_text
key_label (suite, (case_name, attributes)) =
    let config = join (codes ", ") (map_list pair_text attributes) in
    suite
    ++ (codes " / "
        ++ (case_name ++ (if is_filled config then codes " [" ++ (config ++ codes "]") else [])))

-- `test_label`
unfoldable pub test_label : TestResult → Text
unfolding key_label
test_label r = key_label (key_of r)

unfoldable pub same_attributes : Attributes → Attributes → Bool
unfolding text_eq
same_attributes [] [] = true
same_attributes ((k, v) ∷ as') ((j, w) ∷ bs) = text_eq k j && text_eq v w && same_attributes as' bs
same_attributes _ _ = false

-- `==` of two keys
unfoldable pub same_key : Key → Key → Bool
unfolding text_eq same_attributes
same_key (s, (n, a)) (s', (n', a')) = text_eq s s' && text_eq n n' && same_attributes a a'

-- `case.get(key, "")`
unfoldable pub attribute_or_empty : Text → Attributes → Text
unfolding text_eq
attribute_or_empty key [] = []
attribute_or_empty key ((k, v) ∷ as') = if text_eq k key then v else attribute_or_empty key as'

-- The attributes but for the name and the time
other_attributes : Attributes → Attributes
unfolding text_eq
other_attributes [] = []
other_attributes ((k, v) ∷ as') =
    if text_eq k (codes "name") || text_eq k (codes "time")
    then other_attributes as'
    else (k, v) ∷ other_attributes as'

-- The order of the keys, which are distinct
abbrev key_before : Text × Text → Text × Text → Bool
key_before a b = text_leb a.0 b.0

unfoldable pub sorted_attributes : Attributes → Attributes
unfolding sorted text_leb other_attributes
sorted_attributes attrib = sorted key_before (other_attributes attrib)

-- `_node_detail`
unfoldable pub node_detail : Node → Text
unfolding strip
node_detail node =
    let inner = strip node.inner_text in
    let message = strip node.message in
    if is_filled message && is_filled inner
    then strip (message ++ (10 ∷ inner))
    else if is_filled message
    then message
    else inner

-- The tag, the detail and the rows of a case
unfoldable pub outcome_of : CaseElement → XmlTag × (Text × List OutcomeRow)
unfolding node_detail parse_outcome_rows
outcome_of c = elim c.failure_node [
  | some node ↦ (tag_failure, (node_detail node, parse_outcome_rows node.message))
  | none ↦ elim c.error_node [
    | some node ↦ (tag_error, (node_detail node, []))
    | none ↦ elim c.skipped_node [
      | some node ↦ (tag_skipped, (node_detail node, parse_outcome_rows node.message))
      | none ↦ (tag_passed, ([], []))
    ]
  ]
]

unfoldable pub result_of : Text → CaseElement → TestResult
unfolding outcome_of classify_outcome sorted_attributes attribute_or_empty
result_of suite_name c =
    let o = outcome_of c in
    record {
      suite = suite_name;
      case_name = attribute_or_empty (codes "name") c.attrib;
      attributes = sorted_attributes c.attrib;
      status = o.0;
      status_class = classify_outcome o.0 o.1.1;
      detail = o.1.0;
      time = attribute_or_empty (codes "time") c.attrib;
      outcome_rows = o.1.1;
    }

-- The results, each under its key, in the order of the document
abbrev pub Results : Type 0
Results = List TestResult

-- `key in results`
unfoldable pub has_key : Key → Results → Bool
unfolding same_key
has_key k [] = false
has_key k (r ∷ rs) = same_key (key_of r) k || has_key k rs

-- A key that is there is a ValueError.
unfoldable pub add_results : List TestResult → Results → Outcome Results
unfolding has_key
add_results [] results = returned results
add_results (r ∷ rs) results =
    let more = add_results rs (results ++ (r ∷ [])) in
    if has_key (key_of r) results then raised value_error else more

-- The results of all cases
unfoldable pub results_of : List SuiteElement → List TestResult
unfolding result_of
results_of [] = []
results_of (s ∷ suites) = map_list (result_of s.suite_name) s.cases ++ results_of suites

unfoldable pub load_results : ReportElement → Outcome (Attributes × Results)
unfolding add_results results_of
load_results root =
    add_results (results_of root.suites) [] >>= (λ results. returned (root.root_attrib, results))
