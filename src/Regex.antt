-- ===== src/Regex.antt =====
-- `re.search` for the patterns of the test runner: sequences of character classes, of greedy
-- repetitions of a class, and of groups round such a repetition, matched with backtracking as
-- Python's `re` does. `\w` and `\s` are those of ASCII texts.
pub mod Laws
pub mod Loosen
use mathlib.Core.Option
use dds_rtps.Prelude.{
  ℕ, Bool, List, Option, Text, [], false, if◌then◌else◌, leb, none, or_else, some, true, ◌&&◌, ◌++◌,
  ◌==◌, ◌||◌, ◌∷◌,
}

-- `[0-9]`
unfoldable pub digit : ℕ → Bool
digit c = leb b'0' c && leb c b'9'

-- `\w`
unfoldable pub word : ℕ → Bool
unfolding digit
word c = digit c || (leb b'a' c && leb c b'z') || (leb b'A' c && leb c b'Z') || c == b'_'

-- `\s`
unfoldable pub space : ℕ → Bool
space c = (leb 9 c && leb c 13) || (leb 28 c && leb c 32)

pub data Item : Type 0 where
  -- one character of a class
  one : (ℕ → Bool) → Item
  -- `c+`
  many : (ℕ → Bool) → Item
  -- `(c+)`
  group : (ℕ → Bool) → Item

abbrev pub Pattern : Type 0
Pattern = List Item

abbrev pub chr : ℕ → Item
chr c = one (λ x. x == c)

abbrev pub literal : Text → Pattern
literal [] = []
literal (c ∷ s) = chr c ∷ literal s

-- The text that was matched, `group(0)`, and the groups.
pub record Match : Type 0 where
  pub whole : Text
  pub groups : List Text

abbrev pub extend : Text → Match → Match
extend run m = record m { whole = run ++ m.whole }

abbrev pub capture : Text → Match → Match
capture run m = record { whole = run ++ m.whole; groups = run ∷ m.groups }

-- `c*` and then `k`, the longest run first.
star : (ℕ → Bool) → (Text → Option Match) → Text → Option (Text × Match)
star c k [] = Option.map (λ m. ([], m)) (k [])
star c k (x ∷ s) = elim (c x) [
  | true ↦
      or_else (Option.map (λ p. (x ∷ p.0, p.1)) (star c k s))
        (Option.map (λ m. ([], m)) (k (x ∷ s)))
  | false ↦ Option.map (λ m. ([], m)) (k (x ∷ s))
]

plus : (ℕ → Bool) → (Text → Option Match) → Text → Option (Text × Match)
plus c k [] = none
plus c k (x ∷ s) = if c x then Option.map (λ p. (x ∷ p.0, p.1)) (star c k s) else none

-- A match that begins where the text does.
match_here : Pattern → Text → Option Match
match_here [] s = some (record { whole = []; groups = [] })
match_here (one c ∷ p) [] = none
match_here (one c ∷ p) (x ∷ s) = if c x then Option.map (extend (x ∷ [])) (match_here p s) else none
match_here (many c ∷ p) s = Option.map (λ r. extend r.0 r.1) (plus c (match_here p) s)
match_here (group c ∷ p) s = Option.map (λ r. capture r.0 r.1) (plus c (match_here p) s)

-- `re.search`: the leftmost match.
unfoldable pub search_text : Pattern → Text → Option Match
unfolding match_here star plus or_else
search_text p [] = match_here p []
search_text p (x ∷ s) = elim (match_here p (x ∷ s)) [ some m ↦ some m | none ↦ search_text p s ]

-- `re.match`: a match at the start
unfoldable pub match_text : Pattern → Text → Option Match
unfolding match_here star plus or_else
match_text p s = match_here p s
