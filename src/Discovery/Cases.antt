-- ===== src/Discovery/Cases.antt =====
-- The test cases of the discovery report: `generate_junit_report` without the texts of its outputs.
-- An issue is the reason of a failure; its message is made of the values that it holds.
use mathlib.Core.Option
use mathlib.Core.Option
use dds_rtps.Prelude.{
  ℕ, Bool, List, Option, Text, [], codes, false, if◌then◌else◌, length, ltb, none, not, some,
  text_eq, true, ◌&&◌, ◌++◌, ◌||◌, ◌∷◌,
}
use dds_rtps.Discovery.Packets.{Summary}
use dds_rtps.Discovery.Participants.{Participants}
use dds_rtps.Discovery.Sedp.{Endpoint}
use dds_rtps.Numerals.{Integer, int_of_text, minus, plus, same_int}
use dds_rtps.Prelude.Sorting.{filter_list}
use dds_rtps.Report.Selection.{map_list}
use dds_rtps.Texts.{contains, in_text, lower}
use dds_rtps.Texts.Edit.{is_filled, parts_at}

pub data Issue : Type 0 where
  too_few_participants : ℕ → ℕ → Issue
  old_version invalid_version : Text → Text → Issue
  empty_endpoint_set : Text → Issue
  topic_missing type_missing : Text → Issue
  mismatched_topics mismatched_types : Issue
  incompatible_reliability : Issue
  incompatible_durability : Text → Text → Issue

pub record Case : Type 0 where
  pub title : Text
  pub issues : List Issue

-- No issue is no failure.
abbrev pub is_success : Case → Bool
is_success c = elim c.issues [ [] ↦ true | i ∷ is ↦ false ]

-- Test case 1
unfoldable pub participant_case : ℕ → Participants → Case
participant_case expected_participants ps = record {
  title = codes "Test_SPDP_Participant_Discovery";
  issues =
      if ltb (length ps) expected_participants
      then too_few_participants expected_participants (length ps) ∷ []
      else [];
}

-- `[int(x) for x in texts]`
unfoldable pub int_list : List Text → Option (List Integer)
unfolding int_of_text
int_list [] = some []
int_list (t ∷ ts) = elim (int_of_text 10 t) [
  | some k ↦ Option.map (λ ks. k ∷ ks) (int_list ts)
  | none ↦ none
]

-- `k < n`
abbrev is_less : Integer → ℕ → Bool
is_less (plus m) n = ltb m n
is_less (minus m) n = ltb 0 m || ltb 0 n

abbrev equals : Integer → ℕ → Bool
equals k n = same_int k (plus n)

-- Is the version below 2.1? A missing second part is an IndexError, which counts as invalid.
unfoldable pub is_old : List Integer → Option Bool
unfolding same_int
is_old [] = none
is_old (major ∷ ks) =
    if is_less major 2
    then some true
    else if equals major 2
    then elim ks [ [] ↦ none | minor ∷ more ↦ some (is_less minor 1) ]
    else some false

abbrev pub is_old_or_none : Option (List Integer) → Option Bool
is_old_or_none (some ks) = is_old ks
is_old_or_none none = none

abbrev pub check_parts : Text × List Text → Option Bool
check_parts (t, ts) = is_old_or_none (int_list (t ∷ ts))

-- Is the version old? None for a text that is no version.
unfoldable pub check_version : Text → Option Bool
unfolding int_list is_old parts_at
check_version version = check_parts (parts_at b'.' version)

version_issues : Participants → List Issue
unfolding check_version
version_issues [] = []
version_issues ((guid, p) ∷ ps) =
    (elim (check_version p.protocol_version) [
      | some old ↦ if old then old_version guid p.protocol_version ∷ [] else []
      | none ↦ invalid_version guid p.protocol_version ∷ []
    ])
    ++ version_issues ps

-- Test case 2
unfoldable pub version_case : Participants → Case
unfolding version_issues
version_case ps = record { title = codes "Test_SPDP_Protocol_Version"; issues = version_issues ps }

-- Test case 3 never fails.
unfoldable pub vendor_case : Case
vendor_case = record { title = codes "Test_SPDP_Vendor_Identification"; issues = [] }

builtin_issues : Participants → List Issue
unfolding text_eq
builtin_issues [] = []
builtin_issues ((guid, p) ∷ ps) =
    if text_eq p.builtin_endpoints_mask (codes "0x00000000")
    then empty_endpoint_set guid ∷ builtin_issues ps
    else builtin_issues ps

-- Test case 4
unfoldable pub builtin_case : Participants → Case
unfolding builtin_issues
builtin_case ps = record { title = codes "Test_SPDP_Builtin_Endpoints"; issues = builtin_issues ps }

unfoldable pub is_writer : Endpoint → Bool
unfolding in_text lower
is_writer e = in_text (codes "writer") (lower e.entity_kind)

unfoldable pub is_reader : Endpoint → Bool
unfolding is_writer in_text lower
is_reader e = not (is_writer e) && in_text (codes "reader") (lower e.entity_kind)

unfoldable pub writers_of : List Endpoint → List Endpoint
unfolding is_writer
writers_of eps = filter_list is_writer eps

unfoldable pub readers_of : List Endpoint → List Endpoint
unfolding is_reader
readers_of eps = filter_list is_reader eps

abbrev pub topics_of : List Endpoint → List Text
topics_of eps = map_list (λ e. e.topic_name) eps

abbrev pub types_of : List Endpoint → List Text
types_of eps = map_list (λ e. e.type_name) eps

-- `bool(a & b)` of two sets
unfoldable pub share_one : List Text → List Text → Bool
unfolding contains
share_one [] bs = false
share_one (a ∷ as') bs = contains a bs || share_one as' bs

-- An expected name that is given and not seen
unfoldable pub missing_name : (Text → Issue) → Option Text → List Text → List Issue
unfolding contains
missing_name issue none names = []
missing_name issue (some t) names =
    if is_filled t && not (contains t names) then issue t ∷ [] else []

unfoldable pub pair_mismatches : List Endpoint → List Endpoint → List Issue
unfolding share_one
pair_mismatches [] rs = []
pair_mismatches (w ∷ ws) [] = []
pair_mismatches (w ∷ ws) (r ∷ rs) =
    (if share_one (topics_of (w ∷ ws)) (topics_of (r ∷ rs)) then [] else mismatched_topics ∷ [])
    ++ (if share_one (types_of (w ∷ ws)) (types_of (r ∷ rs)) then [] else mismatched_types ∷ [])

-- Test case 5
unfoldable pub match_case : Option Text → Option Text → List Endpoint → Case
unfolding missing_name pair_mismatches writers_of readers_of
match_case expected_topic expected_type eps = record {
  title = codes "Test_SEDP_Topic_Type_Match";
  issues =
      missing_name topic_missing expected_topic (topics_of eps)
      ++ (missing_name type_missing expected_type (types_of eps)
          ++ pair_mismatches (writers_of eps) (readers_of eps));
}

-- `dur_order.get(kind, 0)`
unfoldable pub durability_level : Text → ℕ
unfolding text_eq
durability_level s =
    if text_eq s (codes "TRANSIENT_LOCAL")
    then 1
    else if text_eq s (codes "TRANSIENT")
    then 2
    else if text_eq s (codes "PERSISTENT")
    then 3
    else 0

-- What a writer and a reader have against each other
unfoldable pub qos_pair : Endpoint → Endpoint → List Issue
unfolding durability_level text_eq
qos_pair w r =
    (if text_eq w.reliability (codes "BEST_EFFORT") && text_eq r.reliability (codes "RELIABLE")
      then incompatible_reliability ∷ []
      else [])
    ++ (if ltb (durability_level w.durability) (durability_level r.durability)
        then incompatible_durability w.durability r.durability ∷ []
        else [])

unfoldable pub qos_against : Endpoint → List Endpoint → List Issue
unfolding qos_pair
qos_against w [] = []
qos_against w (r ∷ rs) = qos_pair w r ++ qos_against w rs

unfoldable pub qos_errors : List Endpoint → List Endpoint → List Issue
unfolding qos_against
qos_errors [] rs = []
qos_errors (w ∷ ws) rs = qos_against w rs ++ qos_errors ws rs

-- Test case 6
unfoldable pub qos_case : List Endpoint → Case
unfolding qos_errors writers_of readers_of
qos_case eps = record {
  title = codes "Test_SEDP_QoS_Compatibility";
  issues = qos_errors (writers_of eps) (readers_of eps);
}

-- Test case 7 never fails; it tells whether an endpoint has a type object.
unfoldable pub xtypes_present : List Endpoint → Bool
xtypes_present [] = false
xtypes_present (e ∷ eps) = e.has_type_object || xtypes_present eps

unfoldable pub type_information_case : Case
type_information_case = record { title = codes "Test_SEDP_Type_Information"; issues = [] }

-- The name of the suite
unfoldable pub suite_title : Option Text → Option Text → Text
suite_title (some (p ∷ pub_name)) (some (s ∷ sub_name)) =
    codes "rtps_discovery_" ++ ((p ∷ pub_name) ++ (codes "---" ++ (s ∷ sub_name)))
suite_title _ _ = codes "rtps_discovery_report"

unfoldable pub discovery_cases : ℕ → Option Text → Option Text → Summary → List Case
unfolding participant_case version_case vendor_case builtin_case match_case qos_case
    type_information_case
discovery_cases expected_participants expected_topic expected_type summary =
    participant_case expected_participants summary.participants
    ∷ version_case summary.participants
    ∷ vendor_case
    ∷ builtin_case summary.participants
    ∷ match_case expected_topic expected_type summary.endpoints
    ∷ qos_case summary.endpoints
    ∷ type_information_case
    ∷ []
