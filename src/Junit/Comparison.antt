-- ===== src/Junit/Comparison.antt =====
-- `compare` of analyzer.py.
use dds_rtps.Prelude.{
  ℕ, Bool, List, Option, Text, [], codes, if◌then◌else◌, length, none, not, some, text_eq, ◌++◌,
  ◌∷◌,
}
use dds_rtps.Child.{Outcome, returned, ◌>>=◌}
use dds_rtps.Junit.{XmlTag, tag_error, tag_failure, tag_passed, tag_skipped}
use dds_rtps.Junit.Results.{
  Attributes, Key, ReportElement, Results, TestResult, has_key, key_of, load_results, same_key,
  test_label,
}
use dds_rtps.Prelude.Sorting.{filter_list, sorted, text_leb}
use dds_rtps.Report.Selection.{map_list}
use dds_rtps.Texts.Edit.{join}
use dds_rtps.Texts.Quoted.{quoted}

-- `str(key)`: the tuple as Python prints it
attribute_pair : Text × Text → Text
unfolding quoted
attribute_pair (k, v) = codes "(" ++ (quoted k ++ (codes ", " ++ (quoted v ++ codes ")")))

-- A tuple of one has a comma behind it.
attribute_tuple : Attributes → Text
unfolding attribute_pair join
attribute_tuple (p ∷ []) = codes "(" ++ (attribute_pair p ++ codes ",)")
attribute_tuple ps = codes "(" ++ (join (codes ", ") (map_list attribute_pair ps) ++ codes ")")

unfoldable pub key_str : Key → Text
unfolding quoted attribute_tuple
key_str (s, (n, as')) =
    codes "("
    ++ (quoted s
        ++ (codes ", " ++ (quoted n ++ (codes ", " ++ (attribute_tuple as' ++ codes ")")))))

abbrev pub result_before : TestResult → TestResult → Bool
result_before a b = text_leb (key_str (key_of a)) (key_str (key_of b))

-- `results[key]`
unfoldable pub result_at : Key → Results → Option TestResult
unfolding same_key
result_at k [] = none
result_at k (r ∷ rs) = if same_key (key_of r) k then some r else result_at k rs

-- The results of the one report without the keys of the other, in the order of the printed keys
unfoldable pub only_in : Results → Results → Results
unfolding has_key sorted text_leb key_str
only_in rs others = sorted result_before (filter_list (λ r. not (has_key (key_of r) others)) rs)

-- The results with the keys of the other report
unfoldable pub also_in : Results → Results → Results
unfolding has_key sorted text_leb key_str
also_in rs others = sorted result_before (filter_list (λ r. has_key (key_of r) others) rs)

-- The name of a field, and its values in the two reports
pub record Difference : Type 0 where
  pub field : Text
  pub first_value : Text
  pub second_value : Text

pub record ChangedTest : Type 0 where
  pub test : Text
  pub differences : List Difference

abbrev pub tag_text : XmlTag → Text
tag_text tag_passed = codes "passed"
tag_text tag_failure = codes "failure"
tag_text tag_error = codes "error"
tag_text tag_skipped = codes "skipped"

-- The difference of one field, if there is one
unfoldable pub difference : Text → Text → Text → List Difference
unfolding text_eq
difference name_of_field a b =
    if text_eq a b
    then []
    else record { field = name_of_field; first_value = a; second_value = b } ∷ []

module _ (include_times include_details : Bool) where
  unfoldable pub differences_of : TestResult → TestResult → List Difference
  unfolding difference
  differences_of old new =
      difference (codes "status") (tag_text old.status) (tag_text new.status)
      ++ ((if include_details then difference (codes "detail") old.detail new.detail else [])
          ++ (if include_times then difference (codes "time") old.time new.time else []))

  -- A test with a difference is listed under the label of its new result.
  unfoldable pub changed_test : TestResult → List Difference → List ChangedTest
  unfolding test_label
  changed_test new [] = []
  changed_test new (d ∷ ds) = record { test = test_label new; differences = d ∷ ds } ∷ []

  abbrev changes_against : TestResult → Option TestResult → List ChangedTest
  changes_against old none = []
  changes_against old (some new) = changed_test new (differences_of old new)

  unfoldable pub changed_tests : Results → Results → List ChangedTest
  unfolding result_at changed_test differences_of
  changed_tests [] others = []
  changed_tests (old ∷ rs) others =
      changes_against old (result_at (key_of old) others) ++ changed_tests rs others

pub record CompareReport : Type 0 where
  pub first_file : Text
  pub second_file : Text
  pub first_summary : Attributes
  pub second_summary : Attributes
  pub first_count : ℕ
  pub second_count : ℕ
  pub added : List Text
  pub removed : List Text
  pub changed : List ChangedTest

abbrev labels_of : Results → List Text
labels_of rs = map_list test_label rs

-- The report on two files that are read
unfoldable pub compare_results :
    Bool → Bool → Text → Text → Attributes × Results → Attributes × Results → CompareReport
unfolding only_in also_in changed_tests test_label
compare_results include_times include_details first_path second_path (summary, rs) (summary', rs') =
    record {
      first_file = first_path;
      second_file = second_path;
      first_summary = summary;
      second_summary = summary';
      first_count = length rs;
      second_count = length rs';
      added = labels_of (only_in rs' rs);
      removed = labels_of (only_in rs rs');
      changed = changed_tests include_times include_details (also_in rs rs') rs';
    }

unfoldable pub compare_reports :
    Bool → Bool → Text → Text → ReportElement → ReportElement → Outcome CompareReport
unfolding load_results compare_results
compare_reports include_times include_details first_path second_path first_root second_root =
    load_results first_root >>= (λ a. load_results second_root >>= (λ b.
      returned (compare_results include_times include_details first_path second_path a b)))
