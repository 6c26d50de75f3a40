-- ===== src/Discovery/Blanks.antt =====
-- A value without a word where `extract_sedp_endpoints` reads a number.
use dds_rtps.Prelude.{
  All, List, Text, [], codes, inl, inr, none, refl, text_eq, true, ◌∷◌, ◌≡◌, ◌⊎◌,
}
use dds_rtps.Child.{index_error, raised}
use dds_rtps.Discovery.Json.{Fields, Json, add_field, json_dict, json_text, str}
use dds_rtps.Discovery.Sedp.{
  Candidate, Endpoint, extract_sedp_endpoints, first_int, inspect_cand, inspect_cand_key,
  no_candidate, read_kind, tells_endpoint,
}
use dds_rtps.Regex.{space}
use dds_rtps.Texts.Edit.{first_word, lstrip}

abbrev pub IsBlank : Text → Type 0
IsBlank s = All (λ c. space c ≡ true) s

lstrip-IsBlank : (s : Text) → IsBlank s → lstrip s ≡ []
unfolding lstrip
lstrip-IsBlank [] h = refl
lstrip-IsBlank (c ∷ s) (h, t) = rw h (lstrip-IsBlank s t)

first_word-IsBlank : (s : Text) → IsBlank s → first_word s ≡ none
unfolding first_word
first_word-IsBlank s h = rw (lstrip-IsBlank s h, first_word) refl

first_int-IsBlank : (s : Text) → IsBlank s → first_int (json_text s) ≡ raised index_error
unfolding first_int str
first_int-IsBlank s h = rw (first_word-IsBlank s h, first_int) refl

-- The keys whose values are read as numbers
abbrev pub number_keys : List Text
number_keys =
    codes "rtps.reliability_kind"
    ∷ codes "rtps.durability"
    ∷ codes "rtps.ownership"
    ∷ codes "rtps.history_depth"
    ∷ codes "rtps.param.history.depth"
    ∷ []

abbrev pub OneOfKeys : Text → List Text → Type 0
OneOfKeys k [] = ⊥
OneOfKeys k (j ∷ js) = (k ≡ j) ⊎ OneOfKeys k js

inspect_cand_key-IsBlank :
    (k s : Text) (cand : Candidate)
    → OneOfKeys k number_keys
    → IsBlank s
    → inspect_cand_key k (json_text s) cand ≡ raised index_error
unfolding inspect_cand_key read_kind text_eq
inspect_cand_key-IsBlank k s cand (inl e) h = rw (e, first_int-IsBlank s h) refl
inspect_cand_key-IsBlank k s cand (inr (inl e)) h = rw (e, first_int-IsBlank s h) refl
inspect_cand_key-IsBlank k s cand (inr (inr (inl e))) h = rw (e, first_int-IsBlank s h) refl
inspect_cand_key-IsBlank k s cand (inr (inr (inr (inl e)))) h = rw (e, first_int-IsBlank s h) refl
inspect_cand_key-IsBlank k s cand (inr (inr (inr (inr (inl e))))) h =
    rw (e, first_int-IsBlank s h) refl
inspect_cand_key-IsBlank k s cand (inr (inr (inr (inr (inr x))))) h = elim x [ ]

-- A node that tells an endpoint and begins with a kind or a history depth whose value is blank ends
-- the search with an IndexError, which nothing handles.
pub extract_sedp_endpoints-blank :
    (ip : Json) (k s : Text) (fs : Fields) (eps : List Endpoint)
    → OneOfKeys k number_keys
    → IsBlank s
    → tells_endpoint (json_dict (add_field k (json_text s) fs)) ≡ true
    → extract_sedp_endpoints ip (json_dict (add_field k (json_text s) fs)) eps ≡ raised index_error
unfolding extract_sedp_endpoints inspect_cand
extract_sedp_endpoints-blank ip k s fs eps one_of h tells =
    rw (tells, inspect_cand_key-IsBlank k s no_candidate one_of h) refl
