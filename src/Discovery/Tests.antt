-- ===== src/Discovery/Tests.antt =====
-- A capture of two participants with one endpoint each, and what the report says of it.
use Prim.Native.Nat.{◌^◌}
use dds_rtps.Prelude.{
  All, Text, [], codes, false, inl, inr, ltb, none, refl, some, text_eq, true, ◌%◌, ◌/◌, ◌==◌, ◌↔◌,
  ◌∷◌, ◌≡◌,
}
use dds_rtps.Child.{Outcome, index_error, raised, returned}
use dds_rtps.Discovery.Blanks.{extract_sedp_endpoints-blank}
use dds_rtps.Discovery.Cases.{
  check_version, discovery_cases, is_reader, is_success, is_writer, match_case, qos_case,
  readers_of, topics_of, types_of, writers_of,
}
use dds_rtps.Discovery.Decode.{
  decode_builtin_endpoints, decode_vendor, decode_version, endpoint_flags, version_text,
}
use dds_rtps.Discovery.Flags.{decode_builtin_endpoints-bit, decode_builtin_endpoints-mask}
use dds_rtps.Discovery.Invariant.{
  Continues, IsWellFormed, note_packets-Continues, parse_discovery_data-IsWellFormed,
}
use dds_rtps.Discovery.Json.{
  Fields, Json, add_field, add_item, json_dict, json_int, json_list, json_null, json_text,
  no_fields, no_items, repr,
}
use dds_rtps.Discovery.Matching.{AreMatched, IsSeen, match_case-success_iff}
use dds_rtps.Discovery.Packets.{Summary, note_packets, parse_discovery_data}
use dds_rtps.Discovery.Sedp.{extract_sedp_endpoints, tells_endpoint}
use dds_rtps.Discovery.Verdicts.{IsCompatible, qos_case-success_iff}
use dds_rtps.Discovery.Versions.{check_version-decode_version}
use dds_rtps.Numerals.{minus}
use dds_rtps.Regex.{space}
use dds_rtps.Report.Selection.{map_list}
use dds_rtps.Texts.{contains, lower}

abbrev str_field : Text → Text → Fields → Fields
str_field k v fs = add_field k (json_text v) fs

abbrev packet_of : Text → Fields → Json
packet_of ip rtps = json_dict (
    add_field (codes "_source")
      (json_dict (
        add_field (codes "layers")
          (json_dict (
            add_field (codes "ip")
              (json_dict (
                str_field (codes "ip.src") ip
                  (str_field (codes "ip.dst") (codes "10.0.0.9") no_fields)))
              (add_field (codes "rtps") (json_dict rtps) no_fields)))
          no_fields))
      no_fields)

abbrev header_fields : Text → Text → Fields → Fields
header_fields guid vendor_name fs = str_field (codes "rtps.guidPrefix") guid (
    str_field (codes "rtps.vendorId") vendor_name
      (str_field (codes "rtps.version") (codes "0x0203") fs))

abbrev endpoint_fields : Text → Text → Text → Fields
endpoint_fields guid reliability_value durability_value =
    add_field (codes "rtps.sm")
      (json_dict (
        str_field (codes "rtps.param.topicName") (codes "Square") (
          str_field (codes "rtps.param.typeName") (codes "ShapeType") (
            str_field (codes "rtps.param.endpoint_guid") guid (
              str_field (codes "rtps.reliability_kind") reliability_value
                (str_field (codes "rtps.durability") durability_value no_fields))))))
      no_fields

abbrev first_guid : Text
first_guid = codes "01:0f:aa:bb:cc:dd:00:11:22:33:44:55"

abbrev second_guid : Text
second_guid = codes "0101aabbccdd001122334466"

abbrev writer_packet : Json
writer_packet = packet_of (codes "10.0.0.1") (
    header_fields first_guid (codes "0x010F") (
      endpoint_fields (codes "0x010faabbccdd00112233445500000102") (codes "0x00000001 (Best)")
        (codes "0")))

abbrev reader_packet : Json
reader_packet = packet_of (codes "10.0.0.2") (
    header_fields second_guid (codes "01.01")
      (endpoint_fields (codes "0101aabbccdd00112233446600000107") (codes "2") (codes "0x00000001")))

abbrev summary_of : Outcome Summary → Summary
summary_of (returned s) = s
summary_of (raised e) = record { total_rtps_packets = 0; participants = []; endpoints = [] }

two_participants :
    map_list {B = Text × Text × Text}
      (λ p. (p.0, p.1.vendor_name, p.1.protocol_version))
      (summary_of
        (parse_discovery_data (writer_packet ∷ reader_packet ∷ writer_packet ∷ []))).participants
    ≡ (codes "010faabbccdd001122334455", codes "eProsima Fast DDS", codes "2.3")
      ∷ (codes "0101aabbccdd001122334466", codes "RTI Connext DDS", codes "2.3")
      ∷ []
unfolding parse_discovery_data space
two_participants = refl

two_endpoints :
    map_list {B = Text × Text × Text}
      (λ e. (e.entity_kind, e.reliability, e.durability))
      (summary_of
        (parse_discovery_data (writer_packet ∷ reader_packet ∷ writer_packet ∷ []))).endpoints
    ≡ (codes "DataWriter", codes "BEST_EFFORT", codes "VOLATILE")
      ∷ (codes "DataReader", codes "RELIABLE", codes "TRANSIENT_LOCAL")
      ∷ []
unfolding parse_discovery_data space
two_endpoints = refl

issues_of_two :
    map_list
      (λ c. is_success c)
      (discovery_cases 2
        (some (codes "Square"))
        none
        (summary_of (parse_discovery_data (writer_packet ∷ reader_packet ∷ []))))
    ≡ true ∷ true ∷ true ∷ true ∷ true ∷ false ∷ true ∷ []
unfolding parse_discovery_data discovery_cases space
issues_of_two = refl

repr_lem :
    repr (json_list (add_item (json_text (codes "a'b")) (add_item json_null no_items)))
    ≡ codes "[\"a'b\", None]"
unfolding repr
repr_lem = refl

decode_vendor_lem :
    decode_vendor (json_text (codes "0x010F")) ≡ (codes "01.0f", codes "eProsima Fast DDS")
unfolding decode_vendor space
decode_vendor_lem = refl

decode_builtin_endpoints_lem :
    (decode_builtin_endpoints (json_text (codes "0x00000c3f"))).0 ≡ codes "0x00000c3f"
unfolding decode_builtin_endpoints space text_eq lower
decode_builtin_endpoints_lem = refl

negative_version : version_text (minus 1) ≡ codes "255.255"
unfolding version_text
negative_version = refl

abbrev one_packet : Summary
one_packet = summary_of (parse_discovery_data (writer_packet ∷ []))

abbrev two_packets : Summary
two_packets = summary_of (parse_discovery_data (writer_packet ∷ reader_packet ∷ []))

parse_discovery_data-IsWellFormed_example : IsWellFormed two_packets
unfolding parse_discovery_data space
parse_discovery_data-IsWellFormed_example =
    parse_discovery_data-IsWellFormed (writer_packet ∷ reader_packet ∷ []) two_packets refl

note_packets-Continues_example :
    Continues one_packet (summary_of (note_packets (reader_packet ∷ writer_packet ∷ []) one_packet))
unfolding parse_discovery_data note_packets space
note_packets-Continues_example =
    note_packets-Continues (reader_packet ∷ writer_packet ∷ []) one_packet
      (summary_of (note_packets (reader_packet ∷ writer_packet ∷ []) one_packet)) refl

decode_builtin_endpoints-mask_example :
    decode_builtin_endpoints (json_text (decode_builtin_endpoints (json_int 3135)).0)
    ≡ decode_builtin_endpoints (json_int 3135)
decode_builtin_endpoints-mask_example = decode_builtin_endpoints-mask 3135

decode_builtin_endpoints-bit_example :
    contains
      (codes "BUILTIN_ENDPOINT_PARTICIPANT_MESSAGE_DATA_WRITER")
      (decode_builtin_endpoints (json_int 3135)).1
    ≡ (3135 / 2 ^ 10 % 2 == 1)
unfolding endpoint_flags
decode_builtin_endpoints-bit_example =
    decode_builtin_endpoints-bit 3135 10 (codes "BUILTIN_ENDPOINT_PARTICIPANT_MESSAGE_DATA_WRITER")
      refl

check_version-decode_version_example :
    check_version (decode_version (json_int 516)) ≡ some (ltb (516 % 65536) 513)
check_version-decode_version_example = check_version-decode_version 516

qos_case-success_iff_example :
    (is_success (qos_case two_packets.endpoints) ≡ true)
    ↔ All
        (λ w.
          is_writer w ≡ true
          → All (λ r. is_reader r ≡ true → IsCompatible w r) two_packets.endpoints)
        two_packets.endpoints
qos_case-success_iff_example = qos_case-success_iff two_packets.endpoints

match_case-success_iff_example :
    (is_success (match_case (some (codes "Square")) none two_packets.endpoints) ≡ true) ↔ (
      IsSeen (some (codes "Square")) (topics_of two_packets.endpoints)
      × IsSeen none (types_of two_packets.endpoints)
      × AreMatched (writers_of two_packets.endpoints) (readers_of two_packets.endpoints))
match_case-success_iff_example =
    match_case-success_iff (some (codes "Square")) none two_packets.endpoints

abbrev blank_fields : Fields
blank_fields =
    str_field (codes "rtps.param.topicName") (codes "Square")
      (str_field (codes "rtps.param.endpoint_guid") second_guid no_fields)

extract_sedp_endpoints-blank_example :
    extract_sedp_endpoints
      (json_text (codes "10.0.0.1"))
      (json_dict (add_field (codes "rtps.durability") (json_text (codes " ")) blank_fields))
      []
    ≡ raised index_error
unfolding tells_endpoint space
extract_sedp_endpoints-blank_example =
    extract_sedp_endpoints-blank (json_text (codes "10.0.0.1")) (codes "rtps.durability")
      (codes " ") blank_fields [] (inr (inl refl)) (refl, tt) refl
