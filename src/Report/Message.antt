-- ===== src/Report/Message.antt =====
-- The table in the message of a test that is skipped or fails, as `run_test` writes it into the report.
use dds_rtps.Prelude.{List, Text, [], codes, ◌++◌, ◌∷◌}
use dds_rtps.ReturnCode.{name}
use dds_rtps.Report.Verdict.{Process, Row, publisher, subscriber}
use dds_rtps.Texts.{decimal}

-- The entry of `entity_type`
abbrev pub role_of : Process → Text
role_of p = elim p.kind [
  | publisher ↦ codes "Publisher_" ++ decimal p.number
  | subscriber ↦ codes "Subscriber_" ++ decimal p.number
]

abbrev pub table_head : Text
table_head = codes "<table> <tr> <th/> <th> Expected Code </th> <th> Code Produced </th> </tr> "

abbrev pub cell_text : Text → Text → Text
cell_text s rest = codes "<th> " ++ (s ++ (codes " </th> " ++ rest))

abbrev pub row_text : Row → Text → Text
row_text r rest =
    codes "<tr> "
    ++ cell_text (role_of r.entity) (
        cell_text (name r.expected_code) (cell_text (name r.code_produced) (codes "</tr>" ++ rest)))

unfoldable pub rows_text : List Row → Text → Text
unfolding decimal
rows_text [] rest = rest
rows_text (r ∷ rows) rest = row_text r (rows_text rows rest)

-- The message: the table, and behind it what the applications printed
unfoldable pub message_text : List Row → Text → Text
unfolding rows_text
message_text rows information = table_head ++ rows_text rows (codes "</table>" ++ information)
