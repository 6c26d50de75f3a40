-- ===== src/Discovery/Spdp.antt =====
-- What one packet tells about a participant: `walk_tree` and `inspect_spdp_node` of
-- `parse_discovery_data`.
use dds_rtps.Prelude.{
  Bool, List, Option, Text, [], codes, if◌then◌else◌, none, or_else, some, take, text_eq, true,
  ◌&&◌, ◌++◌, ◌||◌, ◌∷◌,
}
use dds_rtps.Child.{Outcome, index_error, raised, returned, value_error, ◌>>=◌}
use dds_rtps.Discovery.Decode.{decode_builtin_endpoints, decode_vendor, decode_version, format_guid}
use dds_rtps.Discovery.Json.{
  Fields, Items, Json, add_field, add_item, json_dict, json_int, json_list, json_text, lookup,
  no_fields, no_items, or_value, str, truthy, value_at,
}
use dds_rtps.Numerals.{Integer, int_of_text}
use dds_rtps.Numerals.Floats.{float_is_zero}
use dds_rtps.Regex.{digit}
use dds_rtps.Texts.{in_text, is_prefix, lower}
use dds_rtps.Texts.Edit.{first_word, is_filled}

-- The port of a locator: a number, or the text that is none
pub data Port : Type 0 where
  port_number : Integer → Port
  port_words : Text → Port

pub record Locator : Type 0 where
  pub transport : Text
  pub ip : Text
  pub port : Port

-- A duration in seconds as the text of a float. A duration that is not set is 20.0.
pub record FoundSpdp : Type 0 where
  pub guid_prefix : Option Text
  pub vendor : Option (Text × Text)
  pub protocol_version : Option Text
  pub lease_duration : Option Text
  pub builtin_endpoints : Option (Text × List Text)
  pub locators_found : List Locator

abbrev pub nothing_found : FoundSpdp
nothing_found = record {
  guid_prefix = none;
  vendor = none;
  protocol_version = none;
  lease_duration = none;
  builtin_endpoints = none;
  locators_found = [];
}

-- `node.get(key, v)`
unfoldable pub get_or_own : Text → Fields → Json → Json
unfolding lookup
get_or_own key node v = elim (lookup key node) [ some w ↦ w | none ↦ v ]

-- The first 12 bytes in hexadecimal digits, of a shorter one all
abbrev pub prefix_of : Text → Text
prefix_of guid = take 24 guid

-- `float(sec)`
read_seconds : Json → Option Text
unfolding str float_is_zero
read_seconds (json_int n) = some (str (json_int n))
read_seconds (json_text s) = elim (float_is_zero s) [ some b ↦ some s | none ↦ none ]
read_seconds v = none

all_digits : Text → Bool
unfolding digit
all_digits [] = true
all_digits (c ∷ s) = digit c && all_digits s

-- `s.isdigit()`
abbrev is_digits : Text → Bool
is_digits s = is_filled s && all_digits s

-- The `int` of a port that has a leading zero or too short a prefix is a ValueError.
unfoldable pub read_port : Text → Outcome Port
unfolding is_prefix all_digits int_of_text first_word
read_port s =
    if is_digits s || is_prefix (codes "0x") s
    then elim (first_word s) [
      | some w ↦ elim (int_of_text 0 w) [
        | some k ↦ returned (port_number k)
        | none ↦ raised value_error
      ]
      | none ↦ raised index_error
    ]
    else returned (port_words s)

transport_of : Text → Text
unfolding in_text
transport_of key =
    if in_text (codes "metatraffic") key
    then codes "metatraffic_unicast"
    else if in_text (codes "multicast") key
    then codes "multicast"
    else codes "unicast"

unfoldable pub note_guid : Fields → Text → Text → Json → FoundSpdp → FoundSpdp
unfolding in_text text_eq get_or_own format_guid
note_guid node k key v found_spdp =
    if in_text (codes "pid_participant_guid") key || text_eq k (codes "rtps.param.participant_guid")
    then record found_spdp {
      guid_prefix =
          some (prefix_of (format_guid (get_or_own (codes "rtps.param.participant_guid") node v)));
    }
    else found_spdp

unfoldable pub note_vendor : Fields → Text → Text → Json → FoundSpdp → FoundSpdp
unfolding in_text text_eq get_or_own decode_vendor
note_vendor node k key v found_spdp =
    if in_text (codes "pid_vendor_id") key || text_eq k (codes "rtps.vendorId")
    then record found_spdp {
      vendor = some (decode_vendor (get_or_own (codes "rtps.vendorId") node v));
    }
    else found_spdp

unfoldable pub note_version : Fields → Text → Text → Json → FoundSpdp → FoundSpdp
unfolding in_text text_eq get_or_own decode_version
note_version node k key v found_spdp =
    if in_text (codes "pid_protocol_version") key || text_eq k (codes "rtps.version")
    then record found_spdp {
      protocol_version = some (decode_version (get_or_own (codes "rtps.version") node v));
    }
    else found_spdp

unfoldable pub note_lease : Fields → Text → FoundSpdp → FoundSpdp
unfolding in_text lookup read_seconds or_else
note_lease node key found_spdp =
    if in_text (codes "pid_participant_lease_duration") key || in_text (codes "lease_duration") key
    then record found_spdp {
      lease_duration =
          or_else (read_seconds (value_at (codes "rtps.param.ntpTime.sec") node))
            found_spdp.lease_duration;
    }
    else found_spdp

unfoldable pub note_endpoints : Fields → Text → Json → FoundSpdp → FoundSpdp
unfolding in_text get_or_own decode_builtin_endpoints
note_endpoints node key v found_spdp =
    if in_text (codes "pid_builtin_endpoint_set") key || in_text (codes "builtin_endpoint_set") key
    then record found_spdp {
      builtin_endpoints =
          some (
            decode_builtin_endpoints (get_or_own (codes "rtps.param.builtin_endpoint_set") node v));
    }
    else found_spdp

unfoldable pub add_locator : FoundSpdp → Text → Text → Port → FoundSpdp
unfolding transport_of
add_locator found_spdp key address p = record found_spdp {
  locators_found =
      found_spdp.locators_found
      ++ (record { transport = transport_of key; ip = address; port = p } ∷ []);
}

unfoldable pub note_locator : Fields → Text → FoundSpdp → Outcome FoundSpdp
unfolding in_text lookup add_locator str
note_locator node key found_spdp =
    let address =
      or_value (value_at (codes "rtps.locator.ipv4") node)
        (value_at (codes "rtps.locator_udp_v4.ip") node) in
    let port_value =
      or_value (value_at (codes "rtps.locator.port") node)
        (value_at (codes "rtps.locator_udp_v4.port") node) in
    if in_text (codes "locator") key && truthy address && truthy port_value
    then read_port (str port_value) >>= (λ p. returned (add_locator found_spdp key (str address) p))
    else returned found_spdp

-- One key of the node
unfoldable pub inspect_key : Fields → Text → Json → FoundSpdp → Outcome FoundSpdp
unfolding lower note_guid note_vendor note_version note_lease note_endpoints note_locator
inspect_key node k v found_spdp =
    let key = lower k in
    note_locator node key (
      note_endpoints node key v (
        note_lease node key (
          note_version node k key v
            (note_vendor node k key v (note_guid node k key v found_spdp)))))

-- The keys of the node one after the other
unfoldable pub inspect_keys : Fields → Fields → FoundSpdp → Outcome FoundSpdp
unfolding inspect_key
inspect_keys node no_fields found_spdp = returned found_spdp
inspect_keys node (add_field k v fs) found_spdp =
    inspect_key node k v found_spdp >>= (λ found'. inspect_keys node fs found')

unfoldable mutual
  unfolding inspect_keys read_port

  -- `walk_tree(obj, inspect_spdp_node)`
  pub walk_tree : Json → FoundSpdp → Outcome FoundSpdp
  walk_tree (json_dict fs) found_spdp =
      inspect_keys fs fs found_spdp >>= (λ found'. walk_fields fs found')
  walk_tree (json_list vs) found_spdp = walk_items vs found_spdp
  walk_tree v found_spdp = returned found_spdp

  pub walk_fields : Fields → FoundSpdp → Outcome FoundSpdp
  walk_fields no_fields found_spdp = returned found_spdp
  walk_fields (add_field k v fs) found_spdp =
      walk_tree v found_spdp >>= (λ found'. walk_fields fs found')

  pub walk_items : Items → FoundSpdp → Outcome FoundSpdp
  walk_items no_items found_spdp = returned found_spdp
  walk_items (add_item v vs) found_spdp =
      walk_tree v found_spdp >>= (λ found'. walk_items vs found')
