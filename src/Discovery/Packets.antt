-- ===== src/Discovery/Packets.antt =====
-- The summary of a capture: the loop of `parse_discovery_data` over the packets.
use dds_rtps.Prelude.{ℕ, List, Text, [], codes, length, ◌∷◌}
use dds_rtps.Child.{Outcome, returned, ◌>>=◌}
use dds_rtps.Discovery.Json.{Json, first_item, get_from, json_dict, json_null, json_text, no_fields}
use dds_rtps.Discovery.Participants.{Participants, note_participant}
use dds_rtps.Discovery.Sedp.{Endpoint, extract_sedp_endpoints}
use dds_rtps.Discovery.Spdp.{nothing_found, walk_tree}

-- The number of packets, the participants and the endpoints
pub record Summary : Type 0 where
  pub total_rtps_packets : ℕ
  pub participants : Participants
  pub endpoints : List Endpoint

-- `d.get(key, default)` where the value has to be an object
abbrev layer : Json → Text → Outcome Json
layer v key = get_from v key (json_dict no_fields)

-- `layers["ip"][key]`, or `layers[key]`, or "unknown"; of a list the first
unfoldable pub address_of : Json → Json → Text → Outcome Json
unfolding get_from
address_of layers ip_layer key =
    get_from layers key (json_text (codes "unknown"))
    >>= (λ outer. get_from ip_layer key outer >>= (λ v. returned v))

pub record Header : Type 0 where
  pub rtps : Json
  pub src : Json
  pub guid : Json
  pub vendor_id : Json
  pub version : Json

-- Both addresses are read first, and then taken out of their lists.
unfoldable pub read_header : Json → Outcome Header
unfolding address_of get_from
read_header packet = do
  source ← layer packet (codes "_source")
  layers ← layer source (codes "layers")
  rtps_layer ← layer layers (codes "rtps")
  ip_layer ← layer layers (codes "ip")
  src ← address_of layers ip_layer (codes "ip.src")
  dst ← address_of layers ip_layer (codes "ip.dst")
  src_ip ← first_item src
  dst_ip ← first_item dst
  outer_guid ← get_from rtps_layer (codes "rtps.guidPrefix.src") json_null
  header_guid ← get_from rtps_layer (codes "rtps.guidPrefix") outer_guid
  header_vendor ← get_from rtps_layer (codes "rtps.vendorId") json_null
  header_version ← get_from rtps_layer (codes "rtps.version") json_null
  returned (record {
    rtps = rtps_layer;
    src = src_ip;
    guid = header_guid;
    vendor_id = header_vendor;
    version = header_version;
  })

-- The participant of the packet, and then its endpoints
unfoldable pub note_packet : Header → Summary → Outcome Summary
unfolding walk_tree note_participant extract_sedp_endpoints
note_packet h summary = walk_tree h.rtps nothing_found >>= (λ found_spdp.
    extract_sedp_endpoints h.src h.rtps summary.endpoints >>= (λ eps. returned (record summary {
      participants =
          note_participant h.src h.guid h.vendor_id h.version found_spdp summary.participants;
      endpoints = eps;
    })))

unfoldable pub note_packets : List Json → Summary → Outcome Summary
unfolding read_header note_packet
note_packets [] summary = returned summary
note_packets (packet ∷ packets) summary =
    read_header packet
    >>= (λ h. note_packet h summary >>= (λ summary'. note_packets packets summary'))

unfoldable pub parse_discovery_data : List Json → Outcome Summary
unfolding note_packets
parse_discovery_data raw_packets =
    note_packets raw_packets
      (record { total_rtps_packets = length raw_packets; participants = []; endpoints = [] })
