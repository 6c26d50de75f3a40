-- ===== src/Discovery/Flags.antt =====
-- The mask of the builtin endpoints: what is printed of it, and the flags that are listed.
use native.Mathlib.Nat.{div-div-eq-div-mul, pow-succ'}
use Prim.Native.Nat.{◌^◌}
use dds_rtps.Prelude.{
  ℕ, Bool, Bool-cases, List, Option, Text, [], ap, arith, codes, inl, inr, none, not, refl, some,
  some_inj, subst, suc, sym, text_eq, text_eq_iff, true, zero, ◌%◌, ◌&&◌, ◌++◌, ◌/◌, ◌==◌, ◌∙◌, ◌∷◌,
  ◌≡◌,
}
use dds_rtps.Discovery.Decode.{
  decode_builtin_endpoints, endpoint_flags, flags_of, halved, is_odd, mask_of,
}
use dds_rtps.Discovery.Json.{json_int, json_text}
use dds_rtps.Numerals.{Integer, int_of_text, padded_hex, plus}
use dds_rtps.Numerals.Laws.{int_of_text-padded_hex}
use dds_rtps.Texts.{contains}

decode_builtin_endpoints-text :
    (s : Text) (k : Integer)
    → int_of_text 16 s ≡ some k
    → decode_builtin_endpoints (json_text s) ≡ mask_of k
unfolding decode_builtin_endpoints
decode_builtin_endpoints-text s k e = rw (e, decode_builtin_endpoints) refl

-- The mask that is printed for a number tells it whole: decoded again, it gives the same text and the
-- same flags.
pub decode_builtin_endpoints-mask :
    (n : ℕ)
    → decode_builtin_endpoints (json_text (decode_builtin_endpoints (json_int n)).0)
      ≡ decode_builtin_endpoints (json_int n)
unfolding decode_builtin_endpoints mask_of
decode_builtin_endpoints-mask n =
    decode_builtin_endpoints-text (codes "0x" ++ padded_hex 8 (plus n)) (plus n)
      (int_of_text-padded_hex 8 n)

-- `k & 2 ** i != 0`
abbrev pub bit_at : ℕ → Integer → Bool
bit_at zero k = is_odd k
bit_at (suc i) k = bit_at i (halved k)

-- No two of the texts are equal.
abbrev distinct : List Text → Bool
distinct [] = true
distinct (t ∷ ts) = not (contains t ts) && distinct ts

abbrev pub get_elem? : ℕ → List Text → Option Text
get_elem? i [] = none
get_elem? zero (t ∷ ts) = some t
get_elem? (suc i) (t ∷ ts) = get_elem? i ts

contains-get_elem? :
    (i : ℕ) (ts : List Text) (t : Text) → get_elem? i ts ≡ some t → contains t ts ≡ true
unfolding contains
contains-get_elem? zero [] t e = cc e
contains-get_elem? (suc i) [] t e = cc e
contains-get_elem? zero (s ∷ ts) t e = ground (arith, text_eq_iff s t, some_inj e)
contains-get_elem? (suc i) (s ∷ ts) t e = ground (arith, contains-get_elem? i ts t e)

contains-flags_of :
    (k : Integer) (ts : List Text) (t : Text)
    → contains t (flags_of k ts) ≡ true
    → contains t ts ≡ true
unfolding flags_of contains
contains-flags_of k [] t e = e
contains-flags_of k (s ∷ ts) t e = ground (arith, contains-flags_of (halved k) ts t)

flags_of-bit_at :
    (i : ℕ) (k : Integer) (ts : List Text) (t : Text)
    → distinct ts ≡ true
    → get_elem? i ts ≡ some t
    → contains t (flags_of k ts) ≡ bit_at i k
unfolding flags_of contains
flags_of-bit_at zero k [] t d e = cc e
flags_of-bit_at (suc i) k [] t d e = cc e
flags_of-bit_at zero k (s ∷ ts) t d e =
    let unseen = subst (λ u. not (contains u ts) && distinct ts ≡ true) (some_inj e) d in
    ground (arith, text_eq_iff s t, some_inj e, contains-flags_of (halved k) ts t)
flags_of-bit_at (suc i) k (s ∷ ts) t d e = elim (Bool-cases (text_eq s t)) [
  | inl same ↦
      let unseen =
        subst (λ u. not (contains u ts) && distinct ts ≡ true) ((text_eq_iff s t).0 same) d in
      elim (clash (contains t ts) (distinct ts) unseen (contains-get_elem? i ts t e)) [ ]
  | inr other ↦ ground (arith, flags_of-bit_at i (halved k) ts t)
]
  where
    clash : (a b : Bool) → not a && b ≡ true → a ≡ true → ⊥
    clash a b h k = ground arith

endpoint_flags-distinct : distinct endpoint_flags ≡ true
unfolding endpoint_flags contains text_eq
endpoint_flags-distinct = refl

-- The bit as it is read in arithmetic
bit_at-plus : (i n : ℕ) → bit_at i (plus n) ≡ (n / 2 ^ i % 2 == 1)
unfolding is_odd halved
bit_at-plus zero n = ground arith
bit_at-plus (suc i) n =
    bit_at-plus i (n / 2)
    ∙ ap (λ k. k % 2 == 1) (div-div-eq-div-mul n 2 (2 ^ i) ∙ ap (λ k. n / k) (sym (pow-succ' 2 i)))

-- A flag of the table is listed for a mask, given as a number, exactly when its bit is set in it.
pub decode_builtin_endpoints-bit :
    (n i : ℕ) (flag : Text)
    → get_elem? i endpoint_flags ≡ some flag
    → contains flag (decode_builtin_endpoints (json_int n)).1 ≡ (n / 2 ^ i % 2 == 1)
unfolding decode_builtin_endpoints mask_of
decode_builtin_endpoints-bit n i flag e =
    flags_of-bit_at i (plus n) endpoint_flags flag endpoint_flags-distinct e ∙ bit_at-plus i n
