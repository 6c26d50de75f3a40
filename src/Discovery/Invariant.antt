-- ===== src/Discovery/Invariant.antt =====
-- What holds of every summary, and what later packets leave as it is.
use dds_rtps.Prelude.{
  Bool-cases, List, Text, [], ap, append-nil, append_assoc, inl, inr, length, refl, some, some_inj,
  subst, sym, text_eq, ◌++◌, ◌∙◌, ◌∷◌, ◌≡◌,
}
use dds_rtps.Child.{Outcome, raised, returned}
use dds_rtps.Child.Returning.{Ensures, Ensures->>=, Ensures-returned}
use dds_rtps.Discovery.Endpoints.{AreListed, Grows, Proceeds, extract_sedp_endpoints-Proceeds}
use dds_rtps.Discovery.Identity.{
  Extends, Extends-refl, Extends-trans, augment-Extends, augment-IsKnown,
}
use dds_rtps.Discovery.Json.{Json}
use dds_rtps.Discovery.Known.{
  AreKnown, add_locators-AreLocators, update_participant-AreDistinct, update_participant-IsKnown,
}
use dds_rtps.Discovery.Packets.{
  Header, Summary, note_packet, note_packets, parse_discovery_data, read_header,
}
use dds_rtps.Discovery.Participants.{
  Participant, Participants, augment, find_participant, new_participant, note_participant,
  packet_guid, update_participant,
}
use dds_rtps.Discovery.Sedp.{extract_sedp_endpoints}
use dds_rtps.Discovery.Spdp.{FoundSpdp, nothing_found, walk_tree}
use dds_rtps.Discovery.Walk.{IsShort, packet_guid-short, walk_tree-IsShort}
use dds_rtps.Texts.Edit.{is_filled}

pub record IsWellFormed (s : Summary) : Type 0 where
  pub known : AreKnown s.participants
  pub listed : AreListed s.endpoints

-- The participants of s stay as Extends tells, and the endpoints of s stay in front.
pub record Continues (s s' : Summary) : Type 0 where
  pub stay :
      (guid : Text) (p : Participant)
      → find_participant guid s.participants ≡ some p
      → (q : Participant) × (find_participant guid s'.participants ≡ some q) × Extends p q
  pub grow : Grows s.endpoints s'.endpoints

Continues-refl : (s : Summary) → Continues s s
Continues-refl s = record {
  stay = λ guid p e. (p, e, Extends-refl p);
  grow = ([], sym (append-nil s.endpoints));
}

Continues-trans : (a b c : Summary) → Continues a b → Continues b c → Continues a c
Continues-trans a b c h k =
    let (m, e) = h.grow in
    let (n, e') = k.grow in
    record {
      stay = λ guid p hit.
          let (q, hit', x) = h.stay guid p hit in
          let (r, hit'', y) = k.stay guid q hit' in (r, hit'', Extends-trans p q r x y);
      grow = (m ++ n, e' ∙ ap (λ l. l ++ n) e ∙ append_assoc a.endpoints m n);
    }

update_participant-stays :
    (key : Text) (f : Participant → Participant) (new : Participant) (ps : Participants)
    → ((p : Participant) → Extends p (f p))
    → (guid : Text) (p : Participant) → find_participant guid ps ≡ some p
    → (q : Participant) × (find_participant guid (update_participant key f new ps) ≡ some q)
      × Extends p q
unfolding update_participant find_participant
update_participant-stays key f new [] x guid p e = cc e
update_participant-stays key f new ((g, r) ∷ ps) x guid p e = elim (Bool-cases (text_eq g key)) [
  | inl k ↦ elim (Bool-cases (text_eq g guid)) [
    | inl h ↦ rw (k, h) (f r, refl, subst (λ s. Extends s (f r)) (some_inj (rw h at e)) (x r))
    | inr h ↦ rw (k, h) (p, rw h at e, Extends-refl p)
  ]
  | inr k ↦ elim (Bool-cases (text_eq g guid)) [
    | inl h ↦ rw (k, h) (p, rw h at e, Extends-refl p)
    | inr h ↦ rw (k, h) (update_participant-stays key f new ps x guid p (rw h at e))
  ]
]

note_participant-AreKnown :
    (ip guid vendor_id version : Json) (f : FoundSpdp) (ps : Participants)
    → IsShort f.guid_prefix
    → AreKnown ps
    → AreKnown (note_participant ip guid vendor_id version f ps)
unfolding note_participant new_participant
note_participant-AreKnown ip guid vendor_id version f ps short (d, a) =
    elim (Bool-cases (is_filled (packet_guid f guid))) [
      | inl e ↦
          let key = packet_guid f guid in
          let new = new_participant key ip vendor_id version f in
          rw e (
            update_participant-AreDistinct key (augment f) new ps d,
            update_participant-IsKnown key (augment f) new ps
                (record {
                  own = refl;
                  named = e;
                  short = packet_guid-short f guid short;
                  once = add_locators-AreLocators [] f.locators_found tt;
                })
                (λ g q k. augment-IsKnown f g q k) a,
          )
      | inr e ↦ rw e (d, a)
    ]

note_participant-stays :
    (ip guid vendor_id version : Json) (f : FoundSpdp) (ps : Participants)
    → (key : Text) (p : Participant) → find_participant key ps ≡ some p
    → (q : Participant) × (find_participant key (note_participant ip guid vendor_id version f ps)
        ≡ some q)
      × Extends p q
unfolding note_participant
note_participant-stays ip guid vendor_id version f ps key p hit =
    elim (Bool-cases (is_filled (packet_guid f guid))) [
      | inl e ↦ rw e (
          update_participant-stays (packet_guid f guid) (augment f)
            (new_participant (packet_guid f guid) ip vendor_id version f) ps
            (λ r. augment-Extends f r) key p hit)
      | inr e ↦ rw e (p, hit, Extends-refl p)
    ]

-- What one packet, or several, may make of a summary
abbrev Steps : Summary → Summary → Type 0
Steps s s' = Continues s s' × (IsWellFormed s → IsWellFormed s')

note_packet-Steps : (h : Header) (s : Summary) → Ensures (Steps s) (note_packet h s)
unfolding note_packet
note_packet-Steps h s =
    Ensures->>= (λ f. IsShort f.guid_prefix) (Steps s) (walk_tree h.rtps nothing_found) _
      (walk_tree-IsShort h.rtps)
      (λ f short.
        Ensures->>= (Proceeds s.endpoints) (Steps s)
          (extract_sedp_endpoints h.src h.rtps s.endpoints) _
          (extract_sedp_endpoints-Proceeds h.src h.rtps s.endpoints)
          (λ eps p. (
            record {
              stay = note_participant-stays h.src h.guid h.vendor_id h.version f s.participants;
              grow = p.0;
            },
            λ w. record {
              known =
                  note_participant-AreKnown h.src h.guid h.vendor_id h.version f s.participants
                    short w.known;
              listed = p.1 w.listed;
            },
          )))

note_packets-Steps :
    (packets : List Json) (s : Summary) → Ensures (Steps s) (note_packets packets s)
unfolding note_packets
note_packets-Steps [] s = (Continues-refl s, λ w. w)
note_packets-Steps (packet ∷ packets) s =
    Ensures->>= (λ h. Unit {0}) (Steps s) (read_header packet) _ (any (read_header packet))
      (λ h t.
        Ensures->>= (Steps s) (Steps s) (note_packet h s) _ (note_packet-Steps h s)
          (λ s' x. both s s' (note_packets packets s') x (note_packets-Steps packets s')))
  where
    any : (o : Outcome Header) → Ensures (λ h. Unit {0}) o
    any (returned h) = tt
    any (raised e) = tt

    both :
        (a b : Summary) (o : Outcome Summary)
        → Steps a b
        → Ensures (Steps b) o
        → Ensures (Steps a) o
    both a b (returned c) x y = (Continues-trans a b c x.0 y.0, λ w. y.1 (x.1 w))
    both a b (raised e) x y = tt

-- A summary of a capture that is read without an exception has one participant for each guid prefix,
-- of 1 to 24 characters, under which it stands, with each locator once, and for each guid and topic
-- one endpoint, which has a topic, a type and a guid.
pub parse_discovery_data-IsWellFormed :
    (packets : List Json) (s : Summary) → parse_discovery_data packets ≡ returned s → IsWellFormed s
unfolding parse_discovery_data
parse_discovery_data-IsWellFormed packets s e =
    let start : Summary = record {
      total_rtps_packets = length packets;
      participants = [];
      endpoints = [];
    } in
    (Ensures-returned (Steps start) (note_packets packets start) s
        (note_packets-Steps packets start) e).1
      (record { known = (tt, tt); listed = (tt, tt) })

-- Packets that come after a summary leave each participant of it under its guid prefix, with the
-- source address, the vendor and the version of its first packet, all its locators in front of new
-- ones, and its flags, if it has any, with their mask; and all endpoints in front of new ones.
pub note_packets-Continues :
    (packets : List Json) (s s' : Summary) → note_packets packets s ≡ returned s' → Continues s s'
note_packets-Continues packets s s' e =
    (Ensures-returned (Steps s) (note_packets packets s) s' (note_packets-Steps packets s) e).0
