-- ===== src/Discovery/Json.antt =====
-- The values that `json.loads` makes of the output of tshark, which holds neither truth values,
-- fractions nor negative numbers, with the operations that the sources apply to them. The keys of an
-- object are distinct, as those of a `dict` are.
use dds_rtps.Prelude.{
  ℕ, Bool, Option, Text, [], codes, false, if◌then◌else◌, leb, ltb, none, not, some, text_eq, true,
  ◌%◌, ◌&&◌, ◌++◌, ◌+◌, ◌-◌, ◌/◌, ◌==◌, ◌∷◌,
}
use dds_rtps.Child.{Outcome, attribute_error, index_error, raised, returned}
use dds_rtps.Numerals.{padded_hex, plus}
use dds_rtps.Texts.{decimal}
use dds_rtps.Texts.Edit.{is_filled}
use dds_rtps.Texts.Quoted.{quoted}

mutual
  pub data Json : Type 0 where
    json_null : Json
    json_int : ℕ → Json
    json_text : Text → Json
    json_list : Items → Json
    json_dict : Fields → Json

  pub data Items : Type 0 where
    no_items : Items
    add_item : Json → Items → Items

  pub data Fields : Type 0 where
    no_fields : Fields
    add_field : Text → Json → Fields → Fields

-- `d.get(key)`
unfoldable pub lookup : Text → Fields → Option Json
unfolding text_eq
lookup key no_fields = none
lookup key (add_field k v fs) = if text_eq k key then some v else lookup key fs

-- `d.get(key)` where a missing key is `None`
abbrev pub value_at : Text → Fields → Json
value_at key fs = elim (lookup key fs) [ some v ↦ v | none ↦ json_null ]

-- `d[key] = v`
unfoldable pub set_at : Text → Json → Fields → Fields
unfolding text_eq
set_at key v no_fields = add_field key v no_fields
set_at key v (add_field k u fs) =
    if text_eq k key then add_field k v fs else add_field k u (set_at key v fs)

-- `bool(v)`
abbrev pub truthy : Json → Bool
truthy json_null = false
truthy (json_int n) = not (n == 0)
truthy (json_text s) = is_filled s
truthy (json_list no_items) = false
truthy (json_list (add_item v vs)) = true
truthy (json_dict no_fields) = false
truthy (json_dict (add_field k v fs)) = true

-- `v or w`
abbrev pub or_value : Json → Json → Json
or_value v w = if truthy v then v else w

-- `v.get(key, default)`
unfoldable pub get_from : Json → Text → Json → Outcome Json
unfolding lookup
get_from (json_dict fs) key default = elim (lookup key fs) [
  | some v ↦ returned v
  | none ↦ returned default
]
get_from v key default = raised attribute_error

-- `v[0]` if it is a list
abbrev pub first_item : Json → Outcome Json
first_item (json_list no_items) = raised index_error
first_item (json_list (add_item v vs)) = returned v
first_item v = returned v

unfoldable mutual
  unfolding quoted decimal

  -- `repr(v)`
  pub repr : Json → Text
  repr json_null = codes "None"
  repr (json_int n) = decimal n
  repr (json_text s) = quoted s
  repr (json_list vs) = codes "[" ++ (repr_items vs ++ codes "]")
  repr (json_dict fs) = codes "{" ++ (repr_fields fs ++ codes "}")

  repr_items : Items → Text
  repr_items no_items = []
  repr_items (add_item v no_items) = repr v
  repr_items (add_item v (add_item w vs)) = repr v ++ (codes ", " ++ repr_items (add_item w vs))

  repr_fields : Fields → Text
  repr_fields no_fields = []
  repr_fields (add_field k v no_fields) = quoted k ++ (codes ": " ++ repr v)
  repr_fields (add_field k v (add_field l w fs)) =
      quoted k ++ (codes ": " ++ (repr v ++ (codes ", " ++ repr_fields (add_field l w fs))))

-- `str(v)`
unfoldable pub str : Json → Text
unfolding repr
str (json_text s) = s
str v = repr v

-- `\uXXXX`
unicode_escape : ℕ → Text
unfolding padded_hex
unicode_escape c = codes "\\u" ++ padded_hex 4 (plus c)

-- The text of a JSON string in ASCII, a character beyond the first 65536 as two surrogates
dumped_chars : Text → Text
unfolding unicode_escape
dumped_chars [] = []
dumped_chars (c ∷ s) =
    (if c == 34
      then codes "\\\""
      else if c == b'\\'
      then codes "\\\\"
      else if c == 8
      then codes "\\b"
      else if c == 9
      then codes "\\t"
      else if c == 10
      then codes "\\n"
      else if c == 12
      then codes "\\f"
      else if c == 13
      then codes "\\r"
      else if leb 32 c && leb c 126
      then c ∷ []
      else if ltb c 65536
      then unicode_escape c
      else unicode_escape (55296 + (c - 65536) / 1024 % 1024)
        ++ unicode_escape (56320 + (c - 65536) % 1024))
    ++ dumped_chars s

dumped_text : Text → Text
unfolding dumped_chars
dumped_text s = 34 ∷ (dumped_chars s ++ (34 ∷ []))

unfoldable mutual
  unfolding dumped_text decimal

  -- `json.dumps(v)`
  pub dumps : Json → Text
  dumps json_null = codes "null"
  dumps (json_int n) = decimal n
  dumps (json_text s) = dumped_text s
  dumps (json_list vs) = codes "[" ++ (dumps_items vs ++ codes "]")
  dumps (json_dict fs) = codes "{" ++ (dumps_fields fs ++ codes "}")

  dumps_items : Items → Text
  dumps_items no_items = []
  dumps_items (add_item v no_items) = dumps v
  dumps_items (add_item v (add_item w vs)) = dumps v ++ (codes ", " ++ dumps_items (add_item w vs))

  dumps_fields : Fields → Text
  dumps_fields no_fields = []
  dumps_fields (add_field k v no_fields) = dumped_text k ++ (codes ": " ++ dumps v)
  dumps_fields (add_field k v (add_field l w fs)) =
      dumped_text k ++ (codes ": " ++ (dumps v ++ (codes ", " ++ dumps_fields (add_field l w fs))))
