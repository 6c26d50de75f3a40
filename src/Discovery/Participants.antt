-- ===== src/Discovery/Participants.antt =====
-- The participants of the summary: a new one, and what later packets add to one that is known.
use dds_rtps.Prelude.{
  Bool, List, Option, Text, [], codes, false, if◌then◌else◌, none, or_else, some, text_eq, ◌&&◌,
  ◌++◌, ◌||◌, ◌∷◌,
}
use dds_rtps.Discovery.Decode.{decode_vendor, decode_version, format_guid}
use dds_rtps.Discovery.Json.{Json, json_text, or_value, truthy}
use dds_rtps.Discovery.Spdp.{FoundSpdp, Locator, Port, port_number, port_words, prefix_of}
use dds_rtps.Numerals.{same_int}
use dds_rtps.Numerals.Floats.{float_is_zero}
use dds_rtps.Texts.Edit.{is_filled}

pub record Participant : Type 0 where
  pub guid_prefix : Text
  pub src_ip : Json
  pub vendor_id : Text
  pub vendor_name : Text
  pub protocol_version : Text
  pub lease_duration : Option Text
  pub builtin_endpoints_mask : Text
  pub builtin_endpoints_flags : List Text
  pub locators : List Locator

-- `summary["participants"]`, in the order of insertion
abbrev pub Participants : Type 0
Participants = List (Text × Participant)

-- A number and a text are not equal.
same_port : Port → Port → Bool
unfolding same_int text_eq
same_port (port_number a) (port_number b) = same_int a b
same_port (port_words a) (port_words b) = text_eq a b
same_port _ _ = false

unfoldable pub same_locator : Locator → Locator → Bool
unfolding same_port text_eq
same_locator a b = text_eq a.transport b.transport && text_eq a.ip b.ip && same_port a.port b.port

-- `lk in seen_locs`
unfoldable pub has_locator : Locator → List Locator → Bool
unfolding same_locator
has_locator l [] = false
has_locator l (m ∷ ms) = same_locator m l || has_locator l ms

-- The locators that are not there yet are appended, each once.
unfoldable pub add_locators : List Locator → List Locator → List Locator
unfolding has_locator
add_locators known [] = known
add_locators known (l ∷ ls) =
    add_locators (if has_locator l known then known else known ++ (l ∷ [])) ls

-- A text that is missing or empty gives way to the other value.
unfoldable pub filled_or : Option Text → Text → Text
filled_or none other = other
filled_or (some []) other = other
filled_or (some (c ∷ s)) other = c ∷ s

-- `found_spdp.get("vendor_id") or header_vendor`
unfoldable pub vendor_value : FoundSpdp → Json → Json
vendor_value found_spdp header_vendor = elim found_spdp.vendor [
  | some v ↦ or_value (json_text v.0) header_vendor
  | none ↦ header_vendor
]

abbrev pub mask_and_flags : FoundSpdp → Text × List Text
mask_and_flags found_spdp = elim found_spdp.builtin_endpoints [
  | some p ↦ p
  | none ↦ (codes "unknown", [])
]

unfoldable pub new_participant : Text → Json → Json → Json → FoundSpdp → Participant
unfolding vendor_value filled_or decode_vendor decode_version add_locators
new_participant guid_p ip header_vendor header_version found_spdp =
    let v = decode_vendor (vendor_value found_spdp header_vendor) in
    record {
      guid_prefix = guid_p;
      src_ip = ip;
      vendor_id = v.0;
      vendor_name = v.1;
      protocol_version = filled_or found_spdp.protocol_version (decode_version header_version);
      lease_duration = found_spdp.lease_duration;
      builtin_endpoints_mask = (mask_and_flags found_spdp).0;
      builtin_endpoints_flags = (mask_and_flags found_spdp).1;
      locators = add_locators [] found_spdp.locators_found;
    }

-- The flags and the mask are taken while there are no flags.
abbrev pub with_flags : List Text → Text × List Text → Participant → Participant
with_flags [] (mask, f ∷ fs) part = record part {
  builtin_endpoints_mask = mask;
  builtin_endpoints_flags = f ∷ fs;
}
with_flags [] (mask, []) part = part
with_flags (g ∷ gs) found_flags part = part

unfoldable pub add_flags : FoundSpdp → Participant → Participant
add_flags found_spdp part = with_flags part.builtin_endpoints_flags (mask_and_flags found_spdp) part

-- The text of a duration that is not zero
abbrev nonzero_lease : Option Text → Option Text
nonzero_lease none = none
nonzero_lease (some s) = elim (float_is_zero s) [
  | some b ↦ if b then none else some s
  | none ↦ none
]

unfoldable pub add_lease : FoundSpdp → Participant → Participant
unfolding float_is_zero or_else
add_lease found_spdp part = record part {
  lease_duration = or_else (nonzero_lease found_spdp.lease_duration) part.lease_duration;
}

unfoldable pub augment : FoundSpdp → Participant → Participant
unfolding add_flags add_lease add_locators
augment found_spdp part =
    let part' = add_lease found_spdp (add_flags found_spdp part) in
    record part' { locators = add_locators part'.locators found_spdp.locators_found }

unfoldable pub find_participant : Text → Participants → Option Participant
unfolding text_eq
find_participant guid [] = none
find_participant guid ((g, p) ∷ ps) = if text_eq g guid then some p else find_participant guid ps

-- `participants[guid]` changed by `f`, or entered as `p` where it is not there
unfoldable pub update_participant :
    Text → (Participant → Participant) → Participant → Participants → Participants
unfolding text_eq
update_participant guid f p [] = (guid, p) ∷ []
update_participant guid f p ((g, q) ∷ ps) =
    if text_eq g guid then (g, f q) ∷ ps else (g, q) ∷ update_participant guid f p ps

-- The key of the packet's participant: of a parameter, or of the header
unfoldable pub packet_guid : FoundSpdp → Json → Text
unfolding filled_or format_guid
packet_guid found_spdp header_guid =
    filled_or found_spdp.guid_prefix
      (if truthy header_guid then prefix_of (format_guid header_guid) else [])

-- What a packet with the given header does to the participants
unfoldable pub note_participant :
    Json → Json → Json → Json → FoundSpdp → Participants → Participants
unfolding packet_guid update_participant new_participant augment
note_participant ip header_guid header_vendor header_version found_spdp ps =
    let guid_p = packet_guid found_spdp header_guid in
    if is_filled guid_p
    then update_participant guid_p (augment found_spdp)
        (new_participant guid_p ip header_vendor header_version found_spdp) ps
    else ps
