-- ===== src/Discovery/Versions.antt =====
-- The version that a packet announces, from its number to the verdict of test case 2.
use mathlib.Core.Option
use dds_rtps.Prelude.{
  ℕ, List, Text, [], ap, arith, ltb, refl, some, ◌%◌, ◌*◌, ◌++◌, ◌+◌, ◌/◌, ◌<◌, ◌∙◌, ◌∷◌, ◌≡◌,
}
use dds_rtps.Discovery.Cases.{check_parts, check_version, int_list, is_old, is_old_or_none}
use dds_rtps.Discovery.Decode.{decode_version, version_text}
use dds_rtps.Discovery.Json.{json_int}
use dds_rtps.Numerals.{Integer, int_of_text, plus, same_int}
use dds_rtps.Numerals.Decimals.{IsDigits, decimal-IsDigits, int_of_text-decimal}
use dds_rtps.Regex.{digit}
use dds_rtps.Texts.{decimal}
use dds_rtps.Texts.Edit.{parts_at}

parts_at-IsDigits : (s : Text) → IsDigits s → parts_at b'.' s ≡ (s, [])
unfolding parts_at digit
parts_at-IsDigits [] h = refl
parts_at-IsDigits (c ∷ s) (h, t) = ground (arith, parts_at-IsDigits s t)

parts_at-point :
    (s rest : Text)
    → IsDigits s
    → parts_at b'.' (s ++ (b'.' ∷ rest)) ≡ (s, (parts_at b'.' rest).0 ∷ (parts_at b'.' rest).1)
unfolding parts_at digit
parts_at-point [] rest h = refl
parts_at-point (c ∷ s) rest (h, t) = ground (arith, parts_at-point s rest t)

parts_at-version :
    (a b : ℕ) → parts_at b'.' (decimal a ++ (b'.' ∷ decimal b)) ≡ (decimal a, decimal b ∷ [])
parts_at-version a b =
    rw
      (
        parts_at-point (decimal a) (decimal b) (decimal-IsDigits a),
        parts_at-IsDigits (decimal b) (decimal-IsDigits b),
      )
      refl

int_list-step :
    (t : Text) (k : Integer) (ts : List Text)
    → int_of_text 10 t ≡ some k
    → int_list (t ∷ ts) ≡ Option.map (λ ks. k ∷ ks) (int_list ts)
unfolding int_list
int_list-step t k ts e = rw (e, int_list) refl

int_list-version : (a b : ℕ) → int_list (decimal a ∷ decimal b ∷ []) ≡ some (plus a ∷ plus b ∷ [])
unfolding int_list
int_list-version a b =
    int_list-step (decimal a) (plus a) (decimal b ∷ []) (int_of_text-decimal a)
    ∙ ap (Option.map (λ ks. plus a ∷ ks))
        (int_list-step (decimal b) (plus b) [] (int_of_text-decimal b))

is_old-version : (a b : ℕ) → b < 256 → is_old (plus a ∷ plus b ∷ []) ≡ some (ltb (256 * a + b) 513)
unfolding is_old same_int
is_old-version a b lt = ground arith

-- The version that is printed for two numbers is read back as them.
check_version-version :
    (a b : ℕ)
    → b < 256
    → check_version (decimal a ++ (b'.' ∷ decimal b)) ≡ some (ltb (256 * a + b) 513)
unfolding check_version
check_version-version a b lt =
    ap check_parts (parts_at-version a b)
    ∙ ap is_old_or_none (int_list-version a b)
    ∙ is_old-version a b lt

-- A version that is given as a number is printed so that test case 2 reads it: the case takes it for
-- old exactly when its last 16 bits are less than those of 2.1, 0x0201.
pub check_version-decode_version :
    (v : ℕ) → check_version (decode_version (json_int v)) ≡ some (ltb (v % 65536) 513)
unfolding decode_version version_text
check_version-decode_version v =
    check_version-version (v / 256 % 256) (v % 256) (omega arith)
    ∙ ap (λ n. some (ltb n 513)) (omega arith)
