-- ===== src/Discovery/Runs.antt =====
-- How `run_discovery_sniffer` joins a new summary with a file that is there. The summary and the file
-- are JSON here, and but for the keys that are read their values are only copied, so that the fractions
-- of a file may stand as any value. Reading, writing and printing are not modelled.
use dds_rtps.Prelude.{Option, Text, [], codes, if◌then◌else◌, none, some, ◌++◌, ◌∷◌}
use dds_rtps.Child.{Outcome, raised, returned, ◌>>=◌}
use dds_rtps.Discovery.Json.{
  Fields, Json, add_field, get_from, json_dict, json_text, lookup, no_fields, set_at, str, truthy,
}

-- The name of a run: of the two programs where both are given
unfoldable pub pair_key : Text → Text → Text → Text
pair_key (p ∷ pub_name) (s ∷ sub_name) fallback = (p ∷ pub_name) ++ (codes "---" ++ (s ∷ sub_name))
pair_key _ _ fallback = fallback

-- The key of the only run in a file that has no runs yet. A name that is no text but counts as given
-- is printed by `str`.
abbrev given : Json → Text
given v = if truthy v then str v else []

unfoldable pub first_key : Fields → Outcome Text
unfolding get_from pair_key str
first_key existing = do
  metadata ← get_from (json_dict existing) (codes "metadata") (json_dict no_fields)
  first_pub ← get_from metadata (codes "publisher") (json_text [])
  first_sub ← get_from metadata (codes "subscriber") (json_text [])
  returned (pair_key (given first_pub) (given first_sub) (codes "run_1"))

abbrev pub runs_file : Text → Fields → Json
runs_file timestamp runs = json_dict (
    add_field (codes "metadata")
      (json_dict (add_field (codes "timestamp") (json_text timestamp) no_fields))
      (add_field (codes "runs") (json_dict runs) no_fields))

-- The file with the new run under "runs": a value there that is no object is a TypeError, and the new
-- summary then replaces the file.
abbrev pub add_run : Text → Json → Fields → Json → Json
add_run key summary existing (json_dict rs) =
    json_dict (set_at (codes "runs") (json_dict (set_at key summary rs)) existing)
add_run key summary existing other = summary

-- A file of runs made of a single summary and the new one; without `get` the single one is replaced.
abbrev pub start_runs : Text → Text → Json → Fields → Outcome Text → Json
start_runs timestamp key summary existing (returned k) =
    runs_file timestamp (set_at key summary (add_field k (json_dict existing) no_fields))
start_runs timestamp key summary existing (raised e) = summary

abbrev pub join_dict : Text → Text → Json → Fields → Option Json → Json
join_dict timestamp key summary existing (some runs) = add_run key summary existing runs
join_dict timestamp key summary existing none =
    start_runs timestamp key summary existing (first_key existing)

unfoldable pub join_runs : Text → Text → Json → Json → Json
unfolding lookup set_at first_key
join_runs timestamp key summary (json_dict existing) =
    join_dict timestamp key summary existing (lookup (codes "runs") existing)
join_runs timestamp key summary existing = summary

-- What is written, where the file exists or not
unfoldable pub to_write : Text → Text → Text → Json → Option Json → Json
unfolding join_runs pair_key
to_write timestamp pub_name sub_name summary none = summary
to_write timestamp pub_name sub_name summary (some existing) =
    join_runs timestamp (pair_key pub_name sub_name (codes "run_" ++ timestamp)) summary existing
