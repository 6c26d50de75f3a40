-- ===== src/Spreadsheet/Tests.antt =====
-- A report of two suites.
use dds_rtps.Prelude.{Bool, List, Text, [], codes, false, refl, true, ◌++◌, ◌∷◌, ◌≡◌}
use dds_rtps.Spreadsheet.{
  Suite, SuiteCase, get_info, has_not_passed, has_passed, names_of, no_data, pub_unsupported,
  same_pair,
}
use dds_rtps.Spreadsheet.Collecting.{AddsUp, data_of, get_info-AddsUp, pair_data_of, takes_part}
use dds_rtps.Spreadsheet.Listing.{cases_in, cases_with, get_info-lists}

abbrev one_case : Text → List Text → Bool → SuiteCase
one_case title messages b = record { case_title = title; messages = messages; is_passed = b }

abbrev two_suites : List Suite
two_suites =
    record {
      title = codes "connext_dds-7.3---opendds-3.30";
      suite_cases =
          one_case (codes "connext---opendds_Test_Color_1") [] true
          ∷ one_case (codes "Test_Size_0") (codes "got Pub_Unsupported_Feature" ∷ []) false
          ∷ one_case (codes "x") (codes "no data" ∷ []) false
          ∷ [];
      tests = 3;
      failed_tests = 2;
      skipped_tests = 0;
      error_tests = 0;
    }
    ∷ record {
      title = codes "opendds-3.30---opendds-3.30";
      suite_cases = one_case (codes "Test_Color_1") [] true ∷ [];
      tests = 1;
      failed_tests = 0;
      skipped_tests = 0;
      error_tests = 0;
    }
    ∷ []

opendds_data :
    (get_info two_suites no_data).summary_dict
    ≡ (
      codes "Connext DDS 7.3",
      record {
        passed_tests = record { plus = 3; minus = 2 };
        total_tests = 3;
        unsupported_tests = 1;
      },
    )
      ∷ (
        codes "OpenDDS 3.30",
        record {
          passed_tests = record { plus = 4; minus = 2 };
          total_tests = 4;
          unsupported_tests = 1;
        },
      )
      ∷ []
unfolding get_info
opendds_data = refl

listed_cases :
    (get_info two_suites no_data).publisher_product_dict
    ≡ (
      codes "Connext DDS 7.3",
      record { product = codes "OpenDDS 3.30"; tested = codes "Test_Color_1"; outcome = has_passed }
          ∷ record {
            product = codes "OpenDDS 3.30";
            tested = codes "Test_Size_0";
            outcome = pub_unsupported;
          }
          ∷ record { product = codes "OpenDDS 3.30"; tested = codes "x"; outcome = has_not_passed }
          ∷ [],
    )
      ∷ (
        codes "OpenDDS 3.30",
        record {
          product = codes "OpenDDS 3.30";
          tested = codes "Test_Color_1";
          outcome = has_passed;
        }
            ∷ [],
      )
      ∷ []
unfolding get_info
listed_cases = refl

get_info-AddsUp_example :
    AddsUp (data_of (codes "OpenDDS 3.30")) (takes_part (codes "OpenDDS 3.30")) two_suites no_data
    × AddsUp
        (pair_data_of (codes "OpenDDS 3.30", codes "OpenDDS 3.30"))
        (λ s. same_pair (names_of s) (codes "OpenDDS 3.30", codes "OpenDDS 3.30"))
        two_suites
        no_data
get_info-AddsUp_example =
    get_info-AddsUp two_suites no_data (codes "OpenDDS 3.30")
      (codes "OpenDDS 3.30", codes "OpenDDS 3.30")

get_info-lists_example :
    (cases_in (codes "OpenDDS 3.30") (get_info two_suites no_data).publisher_product_dict
      ≡ cases_in (codes "OpenDDS 3.30") no_data.publisher_product_dict
        ++ cases_with (λ p. p.0) (λ p. p.1) (codes "OpenDDS 3.30") two_suites)
    × (cases_in (codes "OpenDDS 3.30") (get_info two_suites no_data).subscriber_product_dict
        ≡ cases_in (codes "OpenDDS 3.30") no_data.subscriber_product_dict
          ++ cases_with (λ p. p.1) (λ p. p.0) (codes "OpenDDS 3.30") two_suites)
get_info-lists_example = get_info-lists (codes "OpenDDS 3.30") two_suites no_data
