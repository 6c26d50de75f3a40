-- ===== src/Texts.antt =====
-- The operations of Python's `str` that the sources use.
pub mod Edit
pub mod Laws
pub mod Plain
pub mod Quoted
use dds_rtps.Prelude.{
  ℕ, Bool, List, Text, [], false, if◌then◌else◌, leb, ltb, suc, text_eq, true, zero, ◌%◌, ◌&&◌, ◌+◌,
  ◌/◌, ◌==◌, ◌||◌, ◌∷◌,
}

-- `text.startswith(p)`
unfoldable pub is_prefix : Text → Text → Bool
is_prefix [] text = true
is_prefix (c ∷ p) [] = false
is_prefix (c ∷ p) (d ∷ text) = c == d && is_prefix p text

-- `p in text`
unfoldable pub in_text : Text → Text → Bool
unfolding is_prefix
in_text p [] = is_prefix p []
in_text p (c ∷ text) = is_prefix p (c ∷ text) || in_text p text

-- `text.endswith(p)`
unfoldable pub is_suffix : Text → Text → Bool
unfolding text_eq
is_suffix p [] = text_eq p []
is_suffix p (c ∷ text) = text_eq p (c ∷ text) || is_suffix p text

-- `text.lower()` of ASCII letters
unfoldable pub lower : Text → Text
lower [] = []
lower (c ∷ text) = (if leb b'A' c && leb c b'Z' then c + 32 else c) ∷ lower text

unfoldable pub digits : ℕ → ℕ → Text → Text
digits zero n rest = rest
digits (suc fuel) n rest =
    let more = digits fuel (n / 10) ((b'0' + n % 10) ∷ rest) in
    if ltb n 10 then (b'0' + n) ∷ rest else more

-- `str(n)`
unfoldable pub decimal : ℕ → Text
unfolding digits
decimal n = digits (suc n) n []

-- `a in list`
unfoldable pub contains : Text → List Text → Bool
contains c [] = false
contains c (d ∷ ds) = text_eq d c || contains c ds
