-- ===== src/Junit/Tests.antt =====
-- The classes and counts of concrete results.
use dds_rtps.Prelude.{List, Text, [], codes, refl, some, text_eq, ◌∷◌, ◌≡◌}
use dds_rtps.ReturnCode.{ok, reader_not_matched, same_code}
use dds_rtps.Child.{returned}
use dds_rtps.Counts.{count_all}
use dds_rtps.Junit.{
  OutcomeRow, RichStatus, error, failure_data, passed, same_status, skipped_unsupported,
  tag_failure,
}
use dds_rtps.Junit.Classify.{classify_outcome, dominant_of}
use dds_rtps.Junit.Statuses.{Labelled, aggregate_statuses, flaky_rows}
use dds_rtps.Report.Verdict.{Process, Row, judge, publisher, result_failed}
use dds_rtps.Texts.{contains}

abbrev failing : List OutcomeRow
failing =
    record { role = codes "Publisher_1"; expected = codes "OK"; produced = codes "OK" }
    ∷ record {
      role = codes "Subscriber_1";
      expected = codes "OK";
      produced = codes "DATA_NOT_RECEIVED";
    }
    ∷ []

failing_class : classify_outcome tag_failure failing ≡ failure_data
unfolding classify_outcome text_eq contains count_all
failing_class = refl

abbrev writers : List Process
writers =
    record {
      kind = publisher;
      number = 1;
      name_executable = [];
      parameters = codes "-P";
      produced_code_index = 0;
    }
    ∷ []

abbrev writer_rows : List Row
writer_rows =
    record {
      entity = record {
        kind = publisher;
        number = 1;
        name_executable = [];
        parameters = codes "-P";
        produced_code_index = 0;
      };
      expected_code = ok;
      code_produced = reader_not_matched;
    }
    ∷ []

-- The second premise holds.
writers_failed :
    judge writers (ok ∷ []) (some reader_not_matched ∷ []) ≡ returned (result_failed writer_rows)
unfolding judge same_code
writers_failed = refl

abbrev mixed : List Text
mixed = codes "B" ∷ codes "A" ∷ codes "A" ∷ []

mixed_dominant : dominant_of mixed ≡ some (codes "A")
unfolding dominant_of text_eq
mixed_dominant = refl

abbrev statuses : List RichStatus
statuses = passed ∷ failure_data ∷ skipped_unsupported ∷ error ∷ []

abbrev results : List Labelled
results =
    record { label = codes "a"; rich_status = passed }
    ∷ record { label = codes "b"; rich_status = error }
    ∷ record { label = codes "a"; rich_status = failure_data }
    ∷ []

flaky_found : flaky_rows (aggregate_statuses results []) ≡ (codes "a", 1, 1) ∷ []
unfolding flaky_rows aggregate_statuses text_eq same_status
flaky_found = refl
