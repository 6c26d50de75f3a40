-- ===== src/Discovery/Walk.antt =====
-- What the walk over a packet keeps, and how long the guid prefix is that it finds.
use dds_rtps.Prelude.{
  ℕ, Bool, Option, Text, [], arith, codes, false, if◌then◌else◌, length, none, some, suc, take,
  text_eq, true, zero, ◌||◌, ◌∷◌, ◌≤◌,
}
use dds_rtps.Child.{Outcome, raised, returned}
use dds_rtps.Child.Returning.{Ensures, Ensures->>=}
use dds_rtps.Discovery.Decode.{format_guid}
use dds_rtps.Discovery.Json.{
  Fields, Items, Json, add_field, add_item, json_dict, json_int, json_list, json_null, json_text,
  no_fields, no_items, truthy,
}
use dds_rtps.Discovery.Participants.{filled_or, packet_guid}
use dds_rtps.Discovery.Spdp.{
  FoundSpdp, Port, add_locator, get_or_own, inspect_key, inspect_keys, note_endpoints, note_guid,
  note_lease, note_locator, note_vendor, note_version, nothing_found, prefix_of, read_port,
  walk_fields, walk_items, walk_tree,
}
use dds_rtps.Texts.{in_text, lower}

module _ (P : FoundSpdp → Type 0)
    (keeps : (node : Fields) (k : Text) (v : Json) (f : FoundSpdp)
      → P f
      → Ensures P (inspect_key node k v f)) where
  inspect_keys-keeps : (node fs : Fields) (f : FoundSpdp) → P f → Ensures P (inspect_keys node fs f)
  unfolding inspect_keys
  inspect_keys-keeps node no_fields f h = h
  inspect_keys-keeps node (add_field k v fs) f h =
      Ensures->>= P P (inspect_key node k v f) (λ g. inspect_keys node fs g) (keeps node k v f h)
        (λ g h'. inspect_keys-keeps node fs g h')

  mutual
    unfolding walk_tree

    pub walk_tree-keeps : (v : Json) (f : FoundSpdp) → P f → Ensures P (walk_tree v f)
    walk_tree-keeps (json_dict fs) f h =
        Ensures->>= P P (inspect_keys fs fs f) (λ g. walk_fields fs g)
          (inspect_keys-keeps fs fs f h) (λ g h'. walk_fields-keeps fs g h')
    walk_tree-keeps (json_list vs) f h = walk_items-keeps vs f h
    walk_tree-keeps json_null f h = h
    walk_tree-keeps (json_int n) f h = h
    walk_tree-keeps (json_text s) f h = h

    walk_fields-keeps : (fs : Fields) (f : FoundSpdp) → P f → Ensures P (walk_fields fs f)
    walk_fields-keeps no_fields f h = h
    walk_fields-keeps (add_field k v fs) f h =
        Ensures->>= P P (walk_tree v f) (λ g. walk_fields fs g) (walk_tree-keeps v f h)
          (λ g h'. walk_fields-keeps fs g h')

    walk_items-keeps : (vs : Items) (f : FoundSpdp) → P f → Ensures P (walk_items vs f)
    walk_items-keeps no_items f h = h
    walk_items-keeps (add_item v vs) f h =
        Ensures->>= P P (walk_tree v f) (λ g. walk_items vs g) (walk_tree-keeps v f h)
          (λ g h'. walk_items-keeps vs g h')

abbrev pub IsShort : Option Text → Type 0
IsShort none = Unit
IsShort (some s) = length s ≤ 24

length-take : (n : ℕ) (s : Text) → length (take n s) ≤ n
length-take zero s = omega arith
length-take (suc n) [] = omega arith
length-take (suc n) (c ∷ s) = omega (arith, length-take n s)

abbrev HasShort : FoundSpdp → Type 0
HasShort f = IsShort f.guid_prefix

if-both {ℓ κ} :
    {A : Type ℓ} (P : A → Type κ) (b : Bool) (x y : A) → P x → P y → P (if b then x else y)
if-both P true x y h k = h
if-both P false x y h k = k

note_guid-HasShort :
    (node : Fields) (k key : Text) (v : Json) (f : FoundSpdp)
    → HasShort f
    → HasShort (note_guid node k key v f)
unfolding note_guid
note_guid-HasShort node k key v f h =
    let guid = format_guid (get_or_own (codes "rtps.param.participant_guid") node v) in
    if-both HasShort
      (in_text (codes "pid_participant_guid") key
        || text_eq k (codes "rtps.param.participant_guid"))
      (record f { guid_prefix = some (prefix_of guid) }) f (length-take 24 guid) h

note_vendor-HasShort :
    (node : Fields) (k key : Text) (v : Json) (f : FoundSpdp)
    → HasShort f
    → HasShort (note_vendor node k key v f)
unfolding note_vendor
note_vendor-HasShort node k key v f h = if-both HasShort _ _ f h h

note_version-HasShort :
    (node : Fields) (k key : Text) (v : Json) (f : FoundSpdp)
    → HasShort f
    → HasShort (note_version node k key v f)
unfolding note_version
note_version-HasShort node k key v f h = if-both HasShort _ _ f h h

note_lease-HasShort :
    (node : Fields) (key : Text) (f : FoundSpdp) → HasShort f → HasShort (note_lease node key f)
unfolding note_lease
note_lease-HasShort node key f h = if-both HasShort _ _ f h h

note_endpoints-HasShort :
    (node : Fields) (key : Text) (v : Json) (f : FoundSpdp)
    → HasShort f
    → HasShort (note_endpoints node key v f)
unfolding note_endpoints
note_endpoints-HasShort node key v f h = if-both HasShort _ _ f h h

note_locator-HasShort :
    (node : Fields) (key : Text) (f : FoundSpdp)
    → HasShort f
    → Ensures HasShort (note_locator node key f)
unfolding note_locator add_locator
note_locator-HasShort node key f h =
    if-both (Ensures HasShort) _ _ (returned f)
      (Ensures->>= (λ p. Unit {0}) HasShort (read_port _) _ (any (read_port _)) (λ p t. h)) h
  where
    any : (o : Outcome Port) → Ensures (λ p. Unit {0}) o
    any (returned p) = tt
    any (raised e) = tt

inspect_key-HasShort :
    (node : Fields) (k : Text) (v : Json) (f : FoundSpdp)
    → HasShort f
    → Ensures HasShort (inspect_key node k v f)
unfolding inspect_key
inspect_key-HasShort node k v f h =
    let key = lower k in
    let a = note_guid node k key v f in
    let b = note_vendor node k key v a in
    let c = note_version node k key v b in
    let d = note_lease node key c in
    note_locator-HasShort node key (note_endpoints node key v d) (
      note_endpoints-HasShort node key v d (
        note_lease-HasShort node key c (
          note_version-HasShort node k key v b
            (note_vendor-HasShort node k key v a (note_guid-HasShort node k key v f h)))))

-- The guid prefix that a walk finds has at most 24 characters.
pub walk_tree-IsShort :
    (v : Json) → Ensures (λ f. IsShort f.guid_prefix) (walk_tree v nothing_found)
walk_tree-IsShort v = walk_tree-keeps HasShort inspect_key-HasShort v nothing_found tt

filled_or-short :
    (o : Option Text) (s : Text) → IsShort o → length s ≤ 24 → length (filled_or o s) ≤ 24
unfolding filled_or
filled_or-short none s h k = k
filled_or-short (some []) s h k = k
filled_or-short (some (c ∷ t)) s h k = h

pub packet_guid-short :
    (f : FoundSpdp) (header_guid : Json)
    → IsShort f.guid_prefix
    → length (packet_guid f header_guid) ≤ 24
unfolding packet_guid
packet_guid-short f header_guid h =
    filled_or-short f.guid_prefix
      (if truthy header_guid then prefix_of (format_guid header_guid) else []) h
      (if-both (λ s. length s ≤ 24) (truthy header_guid) _ []
        (length-take 24 (format_guid header_guid)) (omega arith))
