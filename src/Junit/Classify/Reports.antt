-- ===== src/Junit/Classify/Reports.antt =====
-- How the results that `run_test` writes are classified when the report is read again.
-- The role of a row, as `Publisher_1`.
use dds_rtps.Prelude.{List, [], ◌∷◌}
use dds_rtps.ReturnCode.{ReturnCode, name}
use dds_rtps.Junit.{OutcomeRow}
use dds_rtps.Report.Message.{role_of}
use dds_rtps.Report.Verdict.{Row}

-- The row as `parse_outcome_rows` finds it in the table.
abbrev pub report_rows : List Row → List OutcomeRow
report_rows [] = []
report_rows (r ∷ rows) =
    record {
      role = role_of r.entity;
      expected = name r.expected_code;
      produced = name r.code_produced;
    }
    ∷ report_rows rows
