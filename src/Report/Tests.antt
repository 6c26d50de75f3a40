-- ===== src/Report/Tests.antt =====
-- Runs of the processes and of the verdict, and the properties at concrete arguments.
use dds_rtps.Prelude.{
  ℕ, List, Text, [], codes, false, length, none, refl, some, suc, take, text_eq, true, zero, ◌++◌,
  ◌<◌, ◌↔◌, ◌∷◌, ◌≡◌, ◌≢◌, ◌≤◌, ◌⊎◌,
}
use dds_rtps.ReturnCode.{name, ok, pub_unsupported_feature, receiving_from_one, same_code}
use dds_rtps.Child.{Feed, found, returned, ◌>>=◌}
use dds_rtps.Regex.{digit}
use dds_rtps.Report.{has_option}
use dds_rtps.Report.Handshake.{follow}
use dds_rtps.Report.Publisher.{max_samples_saved, run_publisher_shape_main, search_sent}
use dds_rtps.Report.Publisher.Codes.{
  KeepsLast, run_publisher_shape_main-KeepsLast, run_publisher_shape_main-saves,
}
use dds_rtps.Report.Publisher.Laws.{sample_texts, samples_in}
use dds_rtps.Report.Publisher.Stages.{
  matched_code, matching_stage, publisher_topic_stage, run_publisher_shape_main-follow,
  writer_stage,
}
use dds_rtps.Report.Selection.{
  Options, Poll, TestEntry, complete_element, map_list, missing, run_entries, stop_process,
}
use dds_rtps.Report.Selection.Laws.{
  Outlasts, complete_element-complete_element, kept_names, run_entries-names, stop_process-Outlasts,
}
use dds_rtps.Report.Subscriber.{Check, run_subscriber_shape_main}
use dds_rtps.Report.Subscriber.Laws.{
  data_stage, reader_stage, run_subscriber_shape_main-follow, topic_stage,
}
use dds_rtps.Report.Verdict.{
  CaseResult, Process, Row, judge, prepare, publisher, result_failed, result_ok, result_skipped,
  return_codes, run_test,
}
use dds_rtps.Report.Verdict.Entities.{AreNumbered, run_test-result_ok_iff}
use dds_rtps.Report.Verdict.Laws.{IsReported, Tells, codes_of, judge-ne-result_ok}
use dds_rtps.Report.Waiting.{
  Course, Processes, Step, at_head, broken, checking, draining, drains, one_more, publisher_steps,
  standing, started, writes_code,
}
use dds_rtps.Report.Waiting.Blocked.{Course-blocked, count_withdrawn}
use dds_rtps.Report.Waiting.Order.{Course-InOrder, InOrder}
use dds_rtps.Samples.{basic_check, search_int}
use dds_rtps.Texts.{contains}

abbrev options : Options
options = record {
  publisher_path = codes "./rti_connext_dds-7.3.0_shape_main";
  subscriber_path = codes "./eprosima_shape_main";
  test_cases = some (codes "T1" ∷ []);
  test_cases_disabled = none;
  data_representation = codes "1";
  periodic_announcement_ms = 5000;
}

-- A writer that sends `n` samples after the first.
sending : ℕ → Feed
sending zero = []
sending (suc n) = found 0 (codes "7 7 [9]") ∷ sending n

abbrev handshake : Feed → Feed
handshake feed = found 0 [] ∷ found 0 [] ∷ found 0 [] ∷ found 0 (codes "1 2 [3]") ∷ feed

run_publisher_shape_main-KeepsLast_example :
    KeepsLast (run_publisher_shape_main (codes "-P -w") (handshake (sending 3)))
run_publisher_shape_main-KeepsLast_example =
    run_publisher_shape_main-KeepsLast (codes "-P -w") (handshake (sending 3))

saving : has_option (codes "-w") (codes "-P -w") ≡ true
unfolding has_option
saving = refl

run_publisher_shape_main-saves_example :
    let p = run_publisher_shape_main (codes "-P -w") (handshake (sending 3)) in
    (p.samples_sent
      ≡ take max_samples_saved (samples_in (sample_texts (codes "1 2 [3]") (sending 3))))
    × ((p.code ≡ some ok) ↔ (
        max_samples_saved ≤ length (samples_in (sample_texts (codes "1 2 [3]") (sending 3)))
        × max_samples_saved < length (sample_texts (codes "1 2 [3]") (sending 3))))
run_publisher_shape_main-saves_example =
    run_publisher_shape_main-saves (codes "-P -w") [] [] [] (codes "1 2 [3]") (sending 3) saving

sending_enough : (run_publisher_shape_main (codes "-P -w") (handshake (sending 500))).code ≡ some ok
unfolding run_publisher_shape_main search_sent has_option sending digit
sending_enough = refl

run_publisher_shape_main-follow_example :
    (run_publisher_shape_main (codes "-P -w") (handshake (sending 3))).code
    ≡ follow
        (λ c. c)
        (λ text rest. matched_code (codes "-P -w") rest)
        publisher_topic_stage
        (writer_stage ∷ matching_stage ∷ [])
        (handshake (sending 3))
run_publisher_shape_main-follow_example =
    run_publisher_shape_main-follow (codes "-P -w") (handshake (sending 3))

abbrev any_check : Check
any_check text feed = returned receiving_from_one

abbrev receiving : Feed
receiving = found 0 [] ∷ found 0 [] ∷ found 0 (codes "S B 1 1 [3]") ∷ []

run_subscriber_shape_main-follow_example :
    run_subscriber_shape_main any_check receiving
    ≡ follow returned
        (λ text rest. any_check text rest >>= λ c. returned (some c))
        topic_stage
        (reader_stage ∷ data_stage ∷ [])
        receiving
run_subscriber_shape_main-follow_example = run_subscriber_shape_main-follow any_check receiving

abbrev pair : List Text
pair = codes "-P -t Square" ∷ codes "-S -t Square" ∷ []

pair_prepared : prepare pair (0, 0) ≡ returned (1, 1)
unfolding prepare has_option
pair_prepared = refl

run_test-result_ok_iff_example :
    (ps : List Process) × AreNumbered 0 (0, 0) pair ps
    × ((run_test
            (codes "pub")
            (codes "sub")
            pair
            (ok ∷ receiving_from_one ∷ [])
            any_check
            (handshake [] ∷ receiving ∷ [])
          ≡ returned result_ok)
        ↔ (return_codes any_check ps (handshake [] ∷ receiving ∷ [])
            ≡ codes_of (ok ∷ receiving_from_one ∷ [])))
run_test-result_ok_iff_example =
    run_test-result_ok_iff (codes "pub") (codes "sub") pair (ok ∷ receiving_from_one ∷ []) any_check
      (handshake [] ∷ receiving ∷ []) (1, 1) pair_prepared refl

-- The whole test passes.
pair_passes :
    run_test
      (codes "pub")
      (codes "sub")
      pair
      (ok ∷ receiving_from_one ∷ [])
      any_check
      (handshake [] ∷ receiving ∷ [])
    ≡ returned result_ok
unfolding run_test run_publisher_shape_main run_subscriber_shape_main has_option same_code
pair_passes = refl

abbrev one_process : List Process
one_process =
    record {
      kind = publisher;
      number = 1;
      name_executable = [];
      parameters = codes "-P";
      produced_code_index = 0;
    }
    ∷ []

judge-ne-result_ok_example :
    (rows : List Row) × Tells one_process (ok ∷ []) (some pub_unsupported_feature ∷ []) rows
    × (((judge one_process (ok ∷ []) (some pub_unsupported_feature ∷ [])
            ≡ returned (result_skipped rows))
          × IsReported (some pub_unsupported_feature ∷ []))
        ⊎ ((judge one_process (ok ∷ []) (some pub_unsupported_feature ∷ [])
              ≡ returned (result_failed rows))
            × (¬ IsReported (some pub_unsupported_feature ∷ []))))
judge-ne-result_ok_example =
    judge-ne-result_ok one_process (ok ∷ []) (some pub_unsupported_feature ∷ []) refl refl tt
      λ e. cc e

complete_element-complete_element_example :
    complete_element options (complete_element options (codes "-P -t Square"))
    ≡ complete_element options (codes "-P -t Square")
complete_element-complete_element_example =
    complete_element-complete_element options (codes "-P -t Square")

completed : complete_element options (codes "-P") ≡ codes "-P -x 1 --periodic-announcement 5000"
unfolding complete_element
completed = refl

abbrev suite : List TestEntry
suite =
    record {
      name = codes "T1";
      apps = pair;
      expected_codes = ok ∷ ok ∷ [];
      check_function = missing;
    }
    ∷ record {
      name = codes "T2";
      apps = pair;
      expected_codes = ok ∷ ok ∷ [];
      check_function = missing;
    }
    ∷ []

abbrev replies : Text → List Feed
replies name = handshake [] ∷ receiving ∷ []

suite_run :
    (cases : List (Text × CaseResult)) × (run_entries options replies (codes "suite") suite
      ≡ returned cases)
unfolding run_entries run_test run_publisher_shape_main run_subscriber_shape_main has_option
    same_code basic_check search_int contains text_eq
suite_run = (_, refl)

run_entries-names_example :
    map_list (λ c. c.0) suite_run.0
    ≡ map_list (λ n. codes "suite" ++ b'_' ∷ n) (kept_names options (map_list (λ t. t.name) suite))
run_entries-names_example =
    run_entries-names options replies (codes "suite") suite suite_run.0 suite_run.1

abbrev stubborn : List Poll
stubborn = (true, 1) ∷ (true, 30) ∷ (true, 31) ∷ []

killed : stop_process 30 true true true stubborn ≡ returned false
unfolding stop_process
killed = refl

stop_process-Outlasts_example : (true ≡ true) × (true ≡ true) × Outlasts 30 stubborn
stop_process-Outlasts_example = stop_process-Outlasts 30 true true true stubborn killed

abbrev one_pair : Processes
one_pair = record { publishers = draining ∷ []; subscribers = checking ∷ [] }

first_step : Course false 1 (started 1 1) one_pair
first_step = one_more (publisher_steps (at_head writes_code)) standing

abbrev broken_pair : Processes
broken_pair = record { publishers = draining ∷ []; subscribers = broken ∷ [] }

turning : Course false 1 broken_pair broken_pair
turning = one_more (publisher_steps (at_head (drains refl))) standing

Course-blocked_example :
    (count_withdrawn broken_pair.publishers ≡ count_withdrawn broken_pair.publishers)
    × (count_withdrawn broken_pair.publishers ≢ length broken_pair.publishers
        → (u : Processes) × Step false broken_pair u)
Course-blocked_example = Course-blocked 1 broken_pair broken_pair turning refl

Course-InOrder_example : InOrder false one_pair
Course-InOrder_example = Course-InOrder false 1 1 1 one_pair first_step
