-- ===== src/Junit/Dictionaries.antt =====
-- `to_dict` and `from_dict` of CompareReport in report_data.py.
pub mod Roundtrip
use mathlib.Core.Option
use dds_rtps.Prelude.{ℕ, List, Option, Text, [], codes, none, some, ◌∷◌}
use dds_rtps.Discovery.Json.{
  Fields, Items, Json, add_field, add_item, json_dict, json_int, json_list, json_text, lookup,
  no_fields, no_items,
}
use dds_rtps.Junit.Comparison.{ChangedTest, CompareReport, Difference}
use dds_rtps.Junit.Results.{Attributes}

summary_fields : Attributes → Fields
summary_fields [] = no_fields
summary_fields ((k, v) ∷ as') = add_field k (json_text v) (summary_fields as')

text_items : List Text → Items
text_items [] = no_items
text_items (t ∷ ts) = add_item (json_text t) (text_items ts)

-- The differences of a test by the names of the fields
difference_fields : List Difference → Fields
difference_fields [] = no_fields
difference_fields (d ∷ ds) =
    add_field d.field
      (json_dict (
        add_field (codes "first") (json_text d.first_value)
          (add_field (codes "second") (json_text d.second_value) no_fields)))
      (difference_fields ds)

changed_items : List ChangedTest → Items
unfolding difference_fields
changed_items [] = no_items
changed_items (c ∷ cs) =
    add_item
      (json_dict (
        add_field (codes "test") (json_text c.test) (
          add_field (codes "differences") (json_dict (difference_fields c.differences)) no_fields)))
      (changed_items cs)

side_fields : Text → Attributes → Json
unfolding summary_fields
side_fields file summary = json_dict (
    add_field (codes "file") (json_text file)
      (add_field (codes "summary") (json_dict (summary_fields summary)) no_fields))

unfoldable pub to_dict : CompareReport → Fields
unfolding side_fields text_items changed_items
to_dict r = add_field (codes "first") (side_fields r.first_file r.first_summary) (
    add_field (codes "second") (side_fields r.second_file r.second_summary) (
      add_field (codes "counts")
        (json_dict (
          add_field (codes "first") (json_int r.first_count)
            (add_field (codes "second") (json_int r.second_count) no_fields)))
        (add_field (codes "added") (json_list (text_items r.added)) (
          add_field (codes "removed") (json_list (text_items r.removed))
            (add_field (codes "changed") (json_list (changed_items r.changed)) no_fields)))))

-- The values of a dictionary, which are taken as they are: one of another kind than the report's is
-- none here.
as_text : Option Json → Option Text
as_text (some (json_text t)) = some t
as_text _ = none

as_int : Option Json → Option ℕ
as_int (some (json_int n)) = some n
as_int _ = none

as_dict : Option Json → Option Fields
as_dict (some (json_dict fs)) = some fs
as_dict _ = none

as_list : Option Json → Option Items
as_list (some (json_list vs)) = some vs
as_list _ = none

texts_in : Items → Option (List Text)
texts_in no_items = some []
texts_in (add_item (json_text t) vs) = Option.map (λ ts. t ∷ ts) (texts_in vs)
texts_in (add_item _ vs) = none

summary_in : Fields → Option Attributes
summary_in no_fields = some []
summary_in (add_field k (json_text v) fs) = Option.map (λ as'. (k, v) ∷ as') (summary_in fs)
summary_in (add_field k _ fs) = none

infixl 5 ◌>>=?◌
abbrev ◌>>=?◌ : {A B : Type 0} → Option A → (A → Option B) → Option B
none >>=? k = none
some a >>=? k = k a

difference_in : Text → Fields → Option Difference
unfolding lookup as_text
difference_in key fs = as_text (lookup (codes "first") fs) >>=? (λ a.
    as_text (lookup (codes "second") fs)
    >>=? (λ b. some (record { field = key; first_value = a; second_value = b })))

differences_in : Fields → Option (List Difference)
unfolding difference_in
differences_in no_fields = some []
differences_in (add_field k (json_dict fs) gs) =
    difference_in k fs >>=? (λ d. Option.map (λ ds. d ∷ ds) (differences_in gs))
differences_in (add_field k _ gs) = none

changed_in : Fields → Option ChangedTest
unfolding lookup as_text as_dict differences_in
changed_in fs = as_text (lookup (codes "test") fs) >>=? (λ t.
    as_dict (lookup (codes "differences") fs)
    >>=? (λ gs. differences_in gs >>=? (λ ds. some (record { test = t; differences = ds }))))

all_changed_in : Items → Option (List ChangedTest)
unfolding changed_in
all_changed_in no_items = some []
all_changed_in (add_item (json_dict fs) vs) =
    changed_in fs >>=? (λ c. Option.map (λ cs. c ∷ cs) (all_changed_in vs))
all_changed_in (add_item _ vs) = none

-- The file and the summary of one side
side_in : Option Json → Option (Text × Attributes)
unfolding lookup as_text as_dict summary_in
side_in v = as_dict v >>=? (λ fs. as_text (lookup (codes "file") fs) >>=? (λ file.
    as_dict (lookup (codes "summary") fs)
    >>=? (λ gs. summary_in gs >>=? (λ summary. some (file, summary)))))

counts_in : Option Json → Option (ℕ × ℕ)
unfolding lookup as_dict as_int
counts_in v = as_dict v >>=? (λ fs.
    as_int (lookup (codes "first") fs)
    >>=? (λ a. as_int (lookup (codes "second") fs) >>=? (λ b. some (a, b))))

list_in : {A : Type 0} → (Items → Option A) → Option Json → Option A
unfolding as_list
list_in read v = as_list v >>=? read

unfoldable pub from_dict : Fields → Option CompareReport
unfolding lookup side_in counts_in list_in texts_in all_changed_in
from_dict d = side_in (lookup (codes "first") d) >>=? (λ a.
    side_in (lookup (codes "second") d) >>=? (λ b. counts_in (lookup (codes "counts") d) >>=? (λ n.
      list_in texts_in (lookup (codes "added") d) >>=? (λ add.
        list_in texts_in (lookup (codes "removed") d) >>=? (λ rem.
          list_in all_changed_in (lookup (codes "changed") d) >>=? (λ ch. some (record {
            first_file = a.0;
            second_file = b.0;
            first_summary = a.1;
            second_summary = b.1;
            first_count = n.0;
            second_count = n.1;
            added = add;
            removed = rem;
            changed = ch;
          })))))))
