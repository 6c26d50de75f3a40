-- ===== src/Junit/Classify.antt =====
-- `classify_outcome` of loader.py.
pub mod Laws
pub mod Reports
use dds_rtps.Prelude.{
  ℕ, Bool, List, Option, Text, [], codes, false, if◌then◌else◌, ltb, none, some, text_eq, true,
  ◌&&◌, ◌||◌, ◌∷◌,
}
use dds_rtps.Counts.{count_all}
use dds_rtps.Junit.{
  OutcomeRow, RichStatus, XmlTag, error, failure_data, failure_false_pass, failure_infrastructure,
  failure_ordering, failure_other, failure_qos_unexpected, passed, passed_as_skipped, skipped_other,
  skipped_unsupported, tag_error, tag_failure, tag_passed, tag_skipped,
}
use dds_rtps.Texts.{contains}

-- _UNSUPPORTED_CODES, _DATA_CODES, _ORDERING_CODES and _INFRA_CODES of models.py
abbrev pub unsupported_codes : List Text
unsupported_codes = codes "SUB_UNSUPPORTED_FEATURE" ∷ codes "PUB_UNSUPPORTED_FEATURE" ∷ []

abbrev data_codes : List Text
data_codes = codes "DATA_NOT_CORRECT" ∷ codes "DATA_NOT_RECEIVED" ∷ codes "DATA_NOT_SENT" ∷ []

abbrev ordering_codes : List Text
ordering_codes =
    codes "ORDERED_ACCESS_INSTANCE"
    ∷ codes "ORDERED_ACCESS_TOPIC"
    ∷ codes "RECEIVING_FROM_ONE"
    ∷ codes "RECEIVING_FROM_BOTH"
    ∷ codes "DEADLINE_MISSED"
    ∷ []

abbrev infra_codes : List Text
infra_codes =
    codes "READER_NOT_CREATED"
    ∷ codes "WRITER_NOT_CREATED"
    ∷ codes "TOPIC_NOT_CREATED"
    ∷ codes "READER_NOT_MATCHED"
    ∷ []

-- `produced_codes & _UNSUPPORTED_CODES`
unfoldable pub has_unsupported : List OutcomeRow → Bool
unfolding contains
has_unsupported [] = false
has_unsupported (r ∷ rows) = contains r.produced unsupported_codes || has_unsupported rows

-- `all(e == p for _, e, p in rows)`
unfoldable pub all_as_expected : List OutcomeRow → Bool
all_as_expected [] = true
all_as_expected (r ∷ rows) = text_eq r.expected r.produced && all_as_expected rows

-- `[p for _, e, p in rows if e != p]`
unfoldable pub mismatches : List OutcomeRow → List Text
mismatches [] = []
mismatches (r ∷ rows) =
    if text_eq r.expected r.produced then mismatches rows else r.produced ∷ mismatches rows

-- The entry with the greatest count, the first of these.
unfoldable pub most_from : Text × ℕ → List (Text × ℕ) → Text × ℕ
most_from best [] = best
most_from best (e ∷ d) = most_from (if ltb best.1 e.1 then e else best) d

-- `Counter(mismatches).most_common(1)[0][0]`, or `none` for an empty list
unfoldable pub dominant_of : List Text → Option Text
unfolding count_all most_from
dominant_of ps = elim (count_all text_eq ps []) [ [] ↦ none | e ∷ d ↦ some (most_from e d).0 ]

unfoldable pub classify_dominant : Option Text → RichStatus
unfolding contains
classify_dominant none = failure_other
classify_dominant (some d) =
    if text_eq d (codes "INCOMPATIBLE_QOS")
    then failure_qos_unexpected
    else (if text_eq d (codes "OK")
        then failure_false_pass
        else (if contains d data_codes
            then failure_data
            else (if contains d ordering_codes
                then failure_ordering
                else (if contains d infra_codes then failure_infrastructure else failure_other))))

unfoldable pub classify_outcome : XmlTag → List OutcomeRow → RichStatus
unfolding has_unsupported all_as_expected mismatches dominant_of classify_dominant
classify_outcome tag_passed rows = passed
classify_outcome tag_error rows = error
classify_outcome tag_skipped rows =
    if has_unsupported rows
    then skipped_unsupported
    else (if all_as_expected rows then passed_as_skipped else skipped_other)
classify_outcome tag_failure rows =
    if has_unsupported rows
    then skipped_unsupported
    else classify_dominant (dominant_of (mismatches rows))
