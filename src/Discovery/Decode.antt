-- ===== src/Discovery/Decode.antt =====
-- The values of the discovery parameters and what they stand for.
use dds_rtps.Prelude.{
  ℕ, Bool, List, Text, [], codes, if◌then◌else◌, leb, length, none, some, suc, take, text_eq, zero,
  ◌%◌, ◌&&◌, ◌++◌, ◌+◌, ◌-◌, ◌/◌, ◌==◌, ◌∷◌,
}
use dds_rtps.Discovery.Json.{Json, add_item, json_int, json_list, json_null, json_text, str, truthy}
use dds_rtps.Numerals.{Integer, int_of_text, minus, padded_hex, plus}
use dds_rtps.Report.Verdict.{table}
use dds_rtps.Texts.{decimal, is_prefix, lower}
use dds_rtps.Texts.Edit.{drop, strip, without, zfill}

vendors : List (Text × Text)
vendors =
    (codes "0101", codes "RTI Connext DDS")
    ∷ (codes "0102", codes "OpenSplice DDS")
    ∷ (codes "0103", codes "OpenDDS")
    ∷ (codes "0104", codes "MilSoft")
    ∷ (codes "0105", codes "Twin Oaks CoreDX DDS")
    ∷ (codes "0106", codes "Lakos")
    ∷ (codes "0107", codes "PrismTech")
    ∷ (codes "0108", codes "OAMAS")
    ∷ (codes "0109", codes "THALES")
    ∷ (codes "010a", codes "ATIS")
    ∷ (codes "010f", codes "eProsima Fast DDS")
    ∷ (codes "0110", codes "Eclipse Cyclone DDS")
    ∷ (codes "0111", codes "GurumNetworks GurumDDS")
    ∷ (codes "0112", codes "RustDDS")
    ∷ (codes "0113", codes "Shadow Security DDS")
    ∷ (codes "0114", codes "Dust DDS")
    ∷ (codes "0120", codes "Intercom DDS")
    ∷ []

-- The flags of the endpoint set, the one of bit 0 first
unfoldable pub endpoint_flags : List Text
endpoint_flags =
    codes "DISC_BUILTIN_ENDPOINT_PARTICIPANT_ANNOUNCER"
    ∷ codes "DISC_BUILTIN_ENDPOINT_PARTICIPANT_DETECTOR"
    ∷ codes "DISC_BUILTIN_ENDPOINT_PUBLICATION_ANNOUNCER"
    ∷ codes "DISC_BUILTIN_ENDPOINT_PUBLICATION_DETECTOR"
    ∷ codes "DISC_BUILTIN_ENDPOINT_SUBSCRIPTION_ANNOUNCER"
    ∷ codes "DISC_BUILTIN_ENDPOINT_SUBSCRIPTION_DETECTOR"
    ∷ codes "DISC_BUILTIN_ENDPOINT_PARTICIPANT_PROXY_ANNOUNCER"
    ∷ codes "DISC_BUILTIN_ENDPOINT_PARTICIPANT_PROXY_DETECTOR"
    ∷ codes "DISC_BUILTIN_ENDPOINT_PARTICIPANT_STATE_ANNOUNCER"
    ∷ codes "DISC_BUILTIN_ENDPOINT_PARTICIPANT_STATE_DETECTOR"
    ∷ codes "BUILTIN_ENDPOINT_PARTICIPANT_MESSAGE_DATA_WRITER"
    ∷ codes "BUILTIN_ENDPOINT_PARTICIPANT_MESSAGE_DATA_READER"
    ∷ codes "BITS_TYPE_LOOKUP_SERVICE_REQUEST_DATA_WRITER"
    ∷ codes "BITS_TYPE_LOOKUP_SERVICE_REQUEST_DATA_READER"
    ∷ codes "BITS_TYPE_LOOKUP_SERVICE_REPLY_DATA_WRITER"
    ∷ codes "BITS_TYPE_LOOKUP_SERVICE_REPLY_DATA_READER"
    ∷ codes "DISC_BUILTIN_ENDPOINT_PUBLICATION_SECURE_ANNOUNCER"
    ∷ codes "DISC_BUILTIN_ENDPOINT_PUBLICATION_SECURE_DETECTOR"
    ∷ codes "DISC_BUILTIN_ENDPOINT_SUBSCRIPTION_SECURE_ANNOUNCER"
    ∷ codes "DISC_BUILTIN_ENDPOINT_SUBSCRIPTION_SECURE_DETECTOR"
    ∷ codes "BUILTIN_ENDPOINT_PARTICIPANT_MESSAGE_SECURE_DATA_WRITER"
    ∷ codes "BUILTIN_ENDPOINT_PARTICIPANT_MESSAGE_SECURE_DATA_READER"
    ∷ codes "DISC_BUILTIN_ENDPOINT_PARTICIPANT_SECURE_ANNOUNCER"
    ∷ codes "DISC_BUILTIN_ENDPOINT_PARTICIPANT_SECURE_DETECTOR"
    ∷ []

unfoldable pub name_of : Text → List (Text × Text) → Text → Text
unfolding text_eq
name_of key [] default = default
name_of key ((k, v) ∷ table) default = if text_eq k key then v else name_of key table default

abbrev without_prefix : Text → Text
without_prefix s = if is_prefix (codes "0x") s then drop 2 s else s

abbrev without_marks : Text → Text
without_marks s = without b'.' (without b':' s)

unfoldable pub normalize_hex : Json → ℕ → Text
unfolding zfill strip lower drop without is_prefix str padded_hex
normalize_hex json_null width = []
normalize_hex (json_int n) width = padded_hex width (plus n)
normalize_hex v width = zfill width (without_marks (without_prefix (lower (strip (str v)))))

first_of_list : Json → Json
first_of_list (json_list (add_item v vs)) = v
first_of_list v = v

unfoldable pub format_guid : Json → Text
unfolding strip lower drop without is_prefix str first_of_list
format_guid raw =
    if truthy raw
    then without_prefix (without_marks (lower (strip (str (first_of_list raw)))))
    else codes "unknown"

abbrev unknown_vendor : Text → Text
unknown_vendor norm = codes "Unknown DDS Vendor (" ++ (norm ++ codes ")")

-- The identifier as it is shown, and the name
unfoldable pub vendor_of : Text → Text × Text
unfolding name_of drop vendors
vendor_of norm = (
  if length norm == 4 then take 2 norm ++ (b'.' ∷ drop 2 norm) else norm,
  name_of norm vendors (unknown_vendor norm),
)

unfoldable pub decode_vendor : Json → Text × Text
unfolding normalize_hex vendor_of
decode_vendor v = vendor_of (normalize_hex v 4)

-- `(k >> 8) & 0xFF` and `k & 0xFF`; shifts and masks of -n are those of its two's complement.
unfoldable pub version_text : Integer → Text
unfolding decimal
version_text (plus n) = decimal (n / 256 % 256) ++ (b'.' ∷ decimal (n % 256))
version_text (minus zero) = codes "0.0"
version_text (minus (suc n)) = decimal (255 - n / 256 % 256) ++ (b'.' ∷ decimal (255 - n % 256))

unfoldable pub decode_version : Json → Text
unfolding version_text strip str is_prefix int_of_text
decode_version json_null = codes "unknown"
decode_version (json_int n) = version_text (plus n)
decode_version v =
    let s = strip (str v) in
    if is_prefix (codes "0x") s && leb 6 (length s)
    then elim (int_of_text 16 s) [ some k ↦ version_text k | none ↦ s ]
    else s

-- `(k & 1) != 0`
unfoldable pub is_odd : Integer → Bool
is_odd (plus n) = n % 2 == 1
is_odd (minus n) = n % 2 == 1

-- `k >> 1`
unfoldable pub halved : Integer → Integer
halved (plus n) = plus (n / 2)
halved (minus n) = minus ((n + 1) / 2)

-- The names of the bits that are set: `k & 2 ** i` is read as the last bit of `k >> i`.
unfoldable pub flags_of : Integer → List Text → List Text
unfolding is_odd halved
flags_of k [] = []
flags_of k (flag ∷ flags) =
    let more = flags_of (halved k) flags in if is_odd k then flag ∷ more else more

unfoldable pub mask_of : Integer → Text × List Text
unfolding flags_of padded_hex endpoint_flags
mask_of k = (codes "0x" ++ padded_hex 8 k, flags_of k endpoint_flags)

-- A list or an object is a TypeError of `int`.
unfoldable pub decode_builtin_endpoints : Json → Text × List Text
unfolding mask_of int_of_text str
decode_builtin_endpoints json_null = (codes "0x00000000", [])
decode_builtin_endpoints (json_int n) = mask_of (plus n)
decode_builtin_endpoints (json_text s) = elim (int_of_text 16 s) [
  | some k ↦ mask_of k
  | none ↦ (s, [])
]
decode_builtin_endpoints v = (str v, [])
