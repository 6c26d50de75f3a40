-- ===== src/Junit/ReportTests.antt =====
-- Reports that are read, compared and analysed.
use mathlib.Core.Option
use dds_rtps.Prelude.{List, Option, Text, [], codes, none, refl, some, text_eq, true, ◌↔◌, ◌∷◌, ◌≡◌}
use dds_rtps.ReturnCode.{data_not_received, ok}
use dds_rtps.Child.{Outcome, raised, returned}
use dds_rtps.Counts.{count_all, sum_where}
use dds_rtps.Junit.{error, failure_data, passed}
use dds_rtps.Junit.Classify.{classify_outcome}
use dds_rtps.Junit.Classify.Reports.{report_rows}
use dds_rtps.Junit.Comparison.{CompareReport, compare_reports}
use dds_rtps.Junit.Division.{AreCounted, explain_files-AreCounted}
use dds_rtps.Junit.Explanation.{Shares, explain_files}
use dds_rtps.Junit.Files.{ReportFile, parse_filename_meta}
use dds_rtps.Junit.Groups.{
  aggregate_files, extract_feature, extract_pub_sub, group_report, nothing_counted, place_files,
}
use dds_rtps.Junit.Groups.Laws.{group_report-sums, tally_sum}
use dds_rtps.Junit.Groups.Placing.{group_files, has_count, is_none, place_files-groups}
use dds_rtps.Junit.Loading.{HaveKeys, load_results_iff}
use dds_rtps.Junit.Results.{
  Attributes, CaseElement, Node, ReportElement, Results, load_results, results_of, same_key,
  test_label,
}
use dds_rtps.Junit.Statuses.{Totals, is_real_fail}
use dds_rtps.Junit.Tables.{parse_outcome_rows}
use dds_rtps.Junit.Tables.Roundtrip.{parse_outcome_rows-message_text}
use dds_rtps.Junit.Unchanged.{compare_reports_self}
use dds_rtps.Prelude.Sorting.{filter_list}
use dds_rtps.Regex.{digit, space}
use dds_rtps.Report.Message.{message_text}
use dds_rtps.Report.Selection.{map_list}
use dds_rtps.Report.Verdict.{Row, subscriber}
use dds_rtps.Texts.{contains, in_text, is_prefix}

abbrev run_row : Row
run_row = record {
  entity = record {
    kind = subscriber;
    number = 12;
    name_executable = [];
    parameters = codes "-S";
    produced_code_index = 1;
  };
  expected_code = ok;
  code_produced = data_not_received;
}

parse_outcome_rows-message_text_example :
    parse_outcome_rows (message_text (run_row ∷ []) (codes "<br> no data"))
    ≡ report_rows (run_row ∷ [])
unfolding in_text is_prefix
parse_outcome_rows-message_text_example =
    parse_outcome_rows-message_text (run_row ∷ []) (codes "<br> no data") refl

abbrev plain_case : Text → Option Node → CaseElement
plain_case title node = record {
  attrib =
      (codes "name", title) ∷ (codes "time", codes "1.5") ∷ (codes "config", codes "-k 0") ∷ [];
  failure_node = node;
  error_node = none;
  skipped_node = none;
}

abbrev report_element : Option Node → ReportElement
report_element node = record {
  root_attrib = (codes "tests", codes "2") ∷ [];
  suites =
      record {
        suite_name = codes "rti-7.3---dust-0.11";
        cases =
            plain_case (codes "rtps_test_suite_1_Test_Color_1") node
            ∷ plain_case (codes "rtps_test_suite_1_Test_Domain_2") none
            ∷ [];
      }
      ∷ [];
}

abbrev failed_node : Node
failed_node = record {
  message = message_text (run_row ∷ []) (codes "<br>");
  inner_text = codes " lost ";
}

abbrev passing_report : ReportElement
passing_report = report_element none

abbrev failing_report : ReportElement
failing_report = report_element (some failed_node)

labels_read :
    map_list test_label (results_of failing_report.suites)
    ≡ codes "rti-7.3---dust-0.11 / rtps_test_suite_1_Test_Color_1 [config=-k 0]"
      ∷ codes "rti-7.3---dust-0.11 / rtps_test_suite_1_Test_Domain_2 [config=-k 0]"
      ∷ []
unfolding test_label results_of
labels_read = refl

classes_read :
    map_list (λ r. r.status_class) (results_of failing_report.suites) ≡ failure_data ∷ passed ∷ []
unfolding results_of space message_text classify_outcome parse_outcome_rows count_all text_eq
    contains Option.bind
classes_read = refl

keys_differ : HaveKeys (results_of failing_report.suites)
unfolding results_of same_key text_eq
keys_differ = ((refl, tt), (tt, tt))

abbrev failing_out : Attributes × Results
failing_out = (failing_report.root_attrib, results_of failing_report.suites)

load_results_iff_example : (load_results failing_report ≡ returned failing_out) ↔ (
    HaveKeys (results_of failing_report.suites)
    × (failing_out ≡ (failing_report.root_attrib, results_of failing_report.suites)))
load_results_iff_example = load_results_iff failing_report failing_out

compare_reports_self_example :
    (report : CompareReport) × (compare_reports true true
        (codes "a.xml")
        (codes "b.xml")
        failing_report
        failing_report
      ≡ returned report)
    × (report.added ≡ [])
    × (report.removed ≡ [])
    × (report.changed ≡ [])
compare_reports_self_example =
    compare_reports_self true true (codes "a.xml") (codes "b.xml") failing_report keys_differ

abbrev small_report : CompareReport
small_report = record {
  first_file = codes "a.xml";
  second_file = codes "b.xml";
  first_summary = (codes "tests", codes "2") ∷ [];
  second_summary = [];
  first_count = 2;
  second_count = 1;
  added = [];
  removed = codes "x / y" ∷ [];
  changed =
      record {
        test = codes "x / z";
        differences =
            record {
              field = codes "status";
              first_value = codes "passed";
              second_value = codes "failure";
            }
            ∷ [];
      }
      ∷ [];
}

abbrev new_file : Text → ReportElement → ReportFile
new_file name_of_file root_element = record {
  path = name_of_file;
  file_name = name_of_file;
  root = root_element;
}

abbrev report_files : List ReportFile
report_files =
    new_file (codes "junit_interoperability_report-01022026-1530-par4-120sec-ubuntu-run2.xml")
      failing_report
    ∷ new_file (codes "junit_interoperability_report-02022026-1530-par8.xml") passing_report
    ∷ new_file (codes "junit_old.xml") passing_report
    ∷ []

meta_read :
    Option.map
      (λ m. m.sort_key)
      (parse_filename_meta (codes "junit_report_01022026-1530-par4-120sec-ubuntu-run2.xml"))
    ≡ some (codes "20260201-1530")
unfolding parse_filename_meta
meta_read = refl

batch_read :
    Option.map
      (λ m. m.batch)
      (parse_filename_meta (codes "junit_report_01022026-1530-par4-120sec-ubuntu-run2.xml"))
    ≡ some (some 2)
unfolding parse_filename_meta digit
batch_read = refl

feature_read :
    extract_feature (codes "a-1---b-2 / rtps_test_suite_1_Test_Color_7 [x]") ≡ codes "Color"
unfolding extract_feature digit
feature_read = refl

pair_read :
    extract_pub_sub (codes " a-1---b-2 / rtps_test_suite_1_Test_Color_7 [x]")
    ≡ some (codes "a-1", codes "b-2")
unfolding extract_pub_sub Option.bind
pair_read = refl

place_files-groups_example :
    (group_files 8 (place_files report_files (record { by_count = []; ungrouped = [] })).by_count
      ≡ filter_list (λ f. has_count 8 (parse_filename_meta f.file_name)) report_files)
    × ((place_files report_files (record { by_count = []; ungrouped = [] })).ungrouped
        ≡ filter_list (λ f. is_none (parse_filename_meta f.file_name)) report_files)
place_files-groups_example = place_files-groups 8 report_files

abbrev some_totals : Totals
some_totals =
    (codes "a-1---b-2 / rtps_test_suite_1_Test_Color_7", (passed, 3) ∷ (failure_data, 2) ∷ [])
    ∷ (codes "other", (error, 1) ∷ [])
    ∷ []

group_report-sums_example :
    (tally_sum (group_report 4 report_files some_totals).all_fails.features
      ≡ (group_report 4 report_files some_totals).total_fail_raw)
    × (sum_where is_real_fail (group_report 4 report_files some_totals).rich_status_totals
        ≡ (group_report 4 report_files some_totals).total_fail_raw)
    × (tally_sum (group_report 4 report_files some_totals).all_fails.pubs
        ≡ tally_sum (group_report 4 report_files some_totals).all_fails.subs)
group_report-sums_example = group_report-sums 4 report_files some_totals

abbrev shares_read : Outcome Shares → Shares
shares_read (returned s) = s
shares_read (raised e) = record {
  total_unique_tests = 0;
  perm_pass = 0;
  perm_fail = 0;
  mixed = 0;
  fails = nothing_counted;
}

shares_lem : (shares_read (explain_files report_files)).mixed ≡ 1
unfolding explain_files space message_text Option.bind
shares_lem = refl

explain_files-AreCounted_example :
    (totals : Totals) × (aggregate_files report_files [] ≡ returned totals)
    × AreCounted (shares_read (explain_files report_files)) totals
unfolding explain_files space message_text Option.bind
explain_files-AreCounted_example =
    explain_files-AreCounted report_files (shares_read (explain_files report_files)) refl
