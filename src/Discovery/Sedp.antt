-- ===== src/Discovery/Sedp.antt =====
-- The endpoints that one packet tells of: `extract_sedp_endpoints` of `parse_discovery_data`.
use dds_rtps.Prelude.{
  Bool, List, Option, Text, [], codes, false, if◌then◌else◌, leb, length, none, or_else, some,
  text_eq, true, ◌&&◌, ◌++◌, ◌||◌, ◌∷◌,
}
use dds_rtps.Child.{Outcome, index_error, raised, returned, ◌>>=◌}
use dds_rtps.Discovery.Decode.{format_guid}
use dds_rtps.Discovery.Json.{
  Fields, Items, Json, add_field, add_item, dumps, json_dict, json_list, no_fields, no_items, str,
}
use dds_rtps.Numerals.{Integer, int_of_text, padded_hex, plus, same_int}
use dds_rtps.Texts.{in_text, lower}
use dds_rtps.Texts.Edit.{first_word, is_filled, last_chars}

pub record Candidate : Type 0 where
  pub topic_name : Option Text
  pub type_name : Option Text
  pub endpoint_guid : Option Text
  pub entity_kind : Option Text
  pub reliability : Option Text
  pub durability : Option Text
  pub ownership : Option Text
  pub history_depth : Option Integer
  pub has_type_object : Bool

pub record Endpoint : Type 0 where
  pub topic_name : Text
  pub type_name : Text
  pub endpoint_guid : Text
  pub entity_kind : Text
  pub reliability : Text
  pub durability : Text
  pub ownership : Text
  pub history_depth : Option Integer
  pub has_type_object : Bool
  pub src_ip : Json

abbrev pub no_candidate : Candidate
no_candidate = record {
  topic_name = none;
  type_name = none;
  endpoint_guid = none;
  entity_kind = none;
  reliability = none;
  durability = none;
  ownership = none;
  history_depth = none;
  has_type_object = false;
}

unfoldable pub reliability_kinds : List (Integer × Text)
reliability_kinds = (plus 1, codes "BEST_EFFORT") ∷ (plus 2, codes "RELIABLE") ∷ []

unfoldable pub durability_kinds : List (Integer × Text)
durability_kinds =
    (plus 0, codes "VOLATILE")
    ∷ (plus 1, codes "TRANSIENT_LOCAL")
    ∷ (plus 2, codes "TRANSIENT")
    ∷ (plus 3, codes "PERSISTENT")
    ∷ []

unfoldable pub ownership_kinds : List (Integer × Text)
ownership_kinds = (plus 0, codes "SHARED") ∷ (plus 1, codes "EXCLUSIVE") ∷ []

-- `kinds.get(k, f"0x{k:x}")`
unfoldable pub kind_name : List (Integer × Text) → Integer → Text
unfolding same_int padded_hex
kind_name [] k = codes "0x" ++ padded_hex 0 k
kind_name ((j, s) ∷ kinds) k = if same_int j k then s else kind_name kinds k

-- `int(str(v).split()[0], 0)`: none for a ValueError, and an IndexError for a blank text
unfoldable pub first_int : Json → Outcome (Option Integer)
unfolding first_word int_of_text str
first_int v = elim (first_word (str v)) [
  | some w ↦ returned (int_of_text 0 w)
  | none ↦ raised index_error
]

-- The name of a kind, or the value as it is where it is no number
unfoldable pub read_kind : List (Integer × Text) → Json → Outcome Text
unfolding first_int kind_name str
read_kind kinds v =
    first_int v >>= (λ r. returned (elim r [ some k ↦ kind_name kinds k | none ↦ str v ]))

entity_kind_of : Text → Text
unfolding text_eq
entity_kind_of hex_kind =
    if text_eq hex_kind (codes "02") || text_eq hex_kind (codes "03")
    then codes "DataWriter"
    else if text_eq hex_kind (codes "04") || text_eq hex_kind (codes "07")
    then codes "DataReader"
    else codes "Entity (0x" ++ (hex_kind ++ codes ")")

unfoldable pub note_endpoint_guid : Json → Candidate → Candidate
unfolding format_guid last_chars entity_kind_of
note_endpoint_guid v cand =
    let guid_full = format_guid v in
    if leb 24 (length guid_full)
    then record cand {
      endpoint_guid = some guid_full;
      entity_kind = some (entity_kind_of (last_chars 2 guid_full));
    }
    else cand

names_type_object : Text → Bool
unfolding in_text
names_type_object key =
    in_text (codes "typeobject") key
    || in_text (codes "type_information") key
    || in_text (codes "pid_type_object") key

-- One key of a node
unfoldable pub inspect_cand_key : Text → Json → Candidate → Outcome Candidate
unfolding text_eq note_endpoint_guid read_kind first_int names_type_object or_else str
    reliability_kinds durability_kinds ownership_kinds
inspect_cand_key k v cand =
    if text_eq k (codes "rtps.param.topicName")
    then returned (record cand { topic_name = some (str v) })
    else if text_eq k (codes "rtps.param.typeName")
    then returned (record cand { type_name = some (str v) })
    else if text_eq k (codes "rtps.param.endpoint_guid")
    then returned (note_endpoint_guid v cand)
    else if text_eq k (codes "rtps.reliability_kind")
    then read_kind reliability_kinds v >>= (λ s. returned (record cand { reliability = some s }))
    else if text_eq k (codes "rtps.durability")
    then read_kind durability_kinds v >>= (λ s. returned (record cand { durability = some s }))
    else if text_eq k (codes "rtps.ownership")
    then read_kind ownership_kinds v >>= (λ s. returned (record cand { ownership = some s }))
    else if text_eq k (codes "rtps.history_depth") || text_eq k (codes "rtps.param.history.depth")
    then first_int v
      >>= (λ r. returned (record cand { history_depth = or_else r cand.history_depth }))
    else if names_type_object (lower k)
    then returned (record cand { has_type_object = true })
    else returned cand

unfoldable mutual
  unfolding inspect_cand_key

  pub inspect_cand : Json → Candidate → Outcome Candidate
  inspect_cand (json_dict fs) cand = inspect_cand_fields fs cand
  inspect_cand (json_list vs) cand = inspect_cand_items vs cand
  inspect_cand v cand = returned cand

  pub inspect_cand_fields : Fields → Candidate → Outcome Candidate
  inspect_cand_fields no_fields cand = returned cand
  inspect_cand_fields (add_field k v fs) cand =
      inspect_cand_key k v cand >>= (λ c. inspect_cand v c >>= (λ d. inspect_cand_fields fs d))

  pub inspect_cand_items : Items → Candidate → Outcome Candidate
  inspect_cand_items no_items cand = returned cand
  inspect_cand_items (add_item v vs) cand = inspect_cand v cand >>= (λ c. inspect_cand_items vs c)

abbrev pub text_or : Option Text → Text → Text
text_or none default = default
text_or (some s) default = s

-- The endpoint of a candidate that has a topic, a type and a guid
unfoldable pub endpoint_of : Json → Candidate → Option Endpoint
endpoint_of ip cand =
    let topic = text_or cand.topic_name [] in
    let type = text_or cand.type_name [] in
    let guid = text_or cand.endpoint_guid [] in
    if is_filled topic && is_filled type && is_filled guid
    then some (record {
      topic_name = topic;
      type_name = type;
      endpoint_guid = guid;
      entity_kind = text_or cand.entity_kind [];
      reliability = text_or cand.reliability (codes "BEST_EFFORT");
      durability = text_or cand.durability (codes "VOLATILE");
      ownership = text_or cand.ownership (codes "SHARED");
      history_depth = cand.history_depth;
      has_type_object = cand.has_type_object;
      src_ip = ip;
    })
    else none

unfoldable pub same_endpoint : Endpoint → Endpoint → Bool
unfolding text_eq
same_endpoint a b = text_eq a.endpoint_guid b.endpoint_guid && text_eq a.topic_name b.topic_name

unfoldable pub has_endpoint : Endpoint → List Endpoint → Bool
unfolding same_endpoint
has_endpoint e [] = false
has_endpoint e (ep ∷ eps) = same_endpoint ep e || has_endpoint e eps

-- An endpoint is listed once for a guid and a topic.
unfoldable pub add_endpoint : Endpoint → List Endpoint → List Endpoint
unfolding has_endpoint
add_endpoint e eps = if has_endpoint e eps then eps else eps ++ (e ∷ [])

-- Does the printed node name a topic and a guid?
unfoldable pub tells_endpoint : Json → Bool
unfolding in_text dumps
tells_endpoint node =
    let s_str = dumps node in
    in_text (codes "rtps.param.topicName") s_str
    && (in_text (codes "rtps.param.endpoint_guid") s_str
        || in_text (codes "PID_ENDPOINT_GUID") s_str)

-- An endpoint that a node gives is listed; without one, the values of the node are searched.
abbrev pub enter_or :
    Option Endpoint → List Endpoint → Outcome (List Endpoint) → Outcome (List Endpoint)
enter_or (some e) eps deeper = returned (add_endpoint e eps)
enter_or none eps deeper = deeper

module _ (ip : Json) where
  abbrev pub enter_endpoint :
      Outcome Candidate → List Endpoint → Outcome (List Endpoint) → Outcome (List Endpoint)
  enter_endpoint (raised e) eps deeper = raised e
  enter_endpoint (returned cand) eps deeper = enter_or (endpoint_of ip cand) eps deeper

  unfoldable mutual
    unfolding tells_endpoint inspect_cand endpoint_of add_endpoint

    pub extract_sedp_endpoints : Json → List Endpoint → Outcome (List Endpoint)
    extract_sedp_endpoints (json_dict fs) eps =
        let deeper = extract_fields fs eps in
        if tells_endpoint (json_dict fs)
        then enter_endpoint (inspect_cand (json_dict fs) no_candidate) eps deeper
        else deeper
    extract_sedp_endpoints (json_list vs) eps = extract_items vs eps
    extract_sedp_endpoints v eps = returned eps

    pub extract_fields : Fields → List Endpoint → Outcome (List Endpoint)
    extract_fields no_fields eps = returned eps
    extract_fields (add_field k v fs) eps =
        extract_sedp_endpoints v eps >>= (λ eps'. extract_fields fs eps')

    pub extract_items : Items → List Endpoint → Outcome (List Endpoint)
    extract_items no_items eps = returned eps
    extract_items (add_item v vs) eps =
        extract_sedp_endpoints v eps >>= (λ eps'. extract_items vs eps')
