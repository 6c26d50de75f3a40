-- ===== src/Junit/Dictionaries/Roundtrip.antt =====
-- A comparison, made a dictionary and read again.
use mathlib.Core.Option
use dds_rtps.Prelude.{List, Text, [], ap, codes, refl, some, text_eq, ◌∙◌, ◌∷◌, ◌≡◌}
use dds_rtps.Discovery.Json.{add_field, json_dict, json_text, no_fields}
use dds_rtps.Junit.Comparison.{ChangedTest, CompareReport, Difference}
use dds_rtps.Junit.Dictionaries.{
  all_changed_in, changed_in, changed_items, difference_fields, differences_in, from_dict,
  summary_fields, summary_in, text_items, texts_in, to_dict, ◌>>=?◌,
}
use dds_rtps.Junit.Results.{Attributes}

texts_in-text_items : (ts : List Text) → texts_in (text_items ts) ≡ some ts
unfolding texts_in text_items
texts_in-text_items [] = refl
texts_in-text_items (t ∷ ts) = ap (Option.map (λ us. t ∷ us)) (texts_in-text_items ts)

summary_in-summary_fields : (as' : Attributes) → summary_in (summary_fields as') ≡ some as'
unfolding summary_in summary_fields
summary_in-summary_fields [] = refl
summary_in-summary_fields ((k, v) ∷ as') =
    ap (Option.map (λ bs. (k, v) ∷ bs)) (summary_in-summary_fields as')

differences_in-difference_fields :
    (ds : List Difference) → differences_in (difference_fields ds) ≡ some ds
unfolding differences_in difference_fields text_eq
differences_in-difference_fields [] = refl
differences_in-difference_fields (d ∷ ds) =
    ap (Option.map (λ es. d ∷ es)) (differences_in-difference_fields ds)

changed_in-lem :
    (c : ChangedTest)
    → changed_in (
        add_field
          (codes "test")
          (json_text c.test)
          (add_field (codes "differences") (json_dict (difference_fields c.differences)) no_fields))
      ≡ some c
unfolding changed_in text_eq
changed_in-lem c =
    ap (λ o. o >>=? (λ ds. some (record { test = c.test; differences = ds })))
      (differences_in-difference_fields c.differences)

all_changed_in-changed_items : (cs : List ChangedTest) → all_changed_in (changed_items cs) ≡ some cs
unfolding all_changed_in changed_items
all_changed_in-changed_items [] = refl
all_changed_in-changed_items (c ∷ cs) =
    ap (λ o. o >>=? (λ d. Option.map (λ ds. d ∷ ds) (all_changed_in (changed_items cs))))
      (changed_in-lem c)
    ∙ ap (Option.map (λ ds. c ∷ ds)) (all_changed_in-changed_items cs)

-- A report that is made a dictionary and read again is the report.
pub from_dict-to_dict : (r : CompareReport) → from_dict (to_dict r) ≡ some r
unfolding from_dict to_dict text_eq
from_dict-to_dict r =
    rw
      (
        summary_in-summary_fields r.first_summary,
        summary_in-summary_fields r.second_summary,
        texts_in-text_items r.added,
        texts_in-text_items r.removed,
        all_changed_in-changed_items r.changed,
      )
      refl
