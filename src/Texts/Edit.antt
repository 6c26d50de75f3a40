-- ===== src/Texts/Edit.antt =====
-- The operations of Python's `str` that cut, clean and fill a text.
use dds_rtps.Prelude.{
  ℕ, Bool, List, Option, Text, [], false, if◌then◌else◌, length, none, some, suc, true, zero, ◌&&◌,
  ◌++◌, ◌-◌, ◌==◌, ◌||◌, ◌∷◌,
}
use dds_rtps.Regex.{space}

-- `text.lstrip()`
unfoldable pub lstrip : Text → Text
lstrip [] = []
lstrip (c ∷ text) = if space c then lstrip text else c ∷ text

unfoldable pub is_blank_from : Text → Bool
is_blank_from [] = true
is_blank_from (c ∷ text) = space c && is_blank_from text

-- `text.rstrip()`
unfoldable pub rstrip : Text → Text
unfolding is_blank_from
rstrip [] = []
rstrip (c ∷ text) = if is_blank_from (c ∷ text) then [] else c ∷ rstrip text

-- `text.strip()`
unfoldable pub strip : Text → Text
unfolding lstrip rstrip
strip text = rstrip (lstrip text)

-- `text.replace(c, "")` of one character
unfoldable pub without : ℕ → Text → Text
without c [] = []
without c (d ∷ text) = if d == c then without c text else d ∷ without c text

-- `text[n:]`
unfoldable pub drop : ℕ → Text → Text
drop zero text = text
drop (suc n) [] = []
drop (suc n) (c ∷ text) = drop n text

-- `"0" * n`
unfoldable pub zeros : ℕ → Text
zeros zero = []
zeros (suc n) = b'0' ∷ zeros n

-- `text.zfill(n)`: the zeros come after a sign.
unfoldable pub zfill : ℕ → Text → Text
unfolding zeros
zfill n [] = zeros n
zfill n (c ∷ text) =
    if c == b'+' || c == b'-'
    then c ∷ (zeros (n - suc (length text)) ++ text)
    else zeros (n - suc (length text)) ++ (c ∷ text)

word_from : Text → Text
word_from [] = []
word_from (c ∷ text) = if space c then [] else c ∷ word_from text

-- `text.split()[0]`, which a blank text does not have
unfoldable pub first_word : Text → Option Text
unfolding word_from lstrip
first_word text = elim (lstrip text) [ [] ↦ none | c ∷ rest ↦ some (c ∷ word_from rest) ]

-- `sep.join(texts)`
unfoldable pub join : Text → List Text → Text
join sep [] = []
join sep (t ∷ []) = t
join sep (t ∷ t' ∷ ts) = t ++ (sep ++ join sep (t' ∷ ts))

-- `text.split(c)`: the first part, and the ones behind it
unfoldable pub parts_at : ℕ → Text → Text × List Text
parts_at c [] = ([], [])
parts_at c (d ∷ text) =
    let more = parts_at c text in if d == c then ([], more.0 ∷ more.1) else (d ∷ more.0, more.1)

-- `text[-n:]`
unfoldable pub last_chars : ℕ → Text → Text
unfolding drop
last_chars n text = drop (length text - n) text

-- `bool(text)`
abbrev pub is_filled : Text → Bool
is_filled [] = false
is_filled (c ∷ text) = true
