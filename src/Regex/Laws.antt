-- ===== src/Regex/Laws.antt =====
-- What `re.search` finds, against the meaning of a pattern as a predicate on texts.
use mathlib.Core.Option
use dds_rtps.Prelude.{
  ℕ, All, Bool, Bool-cases, List, Option, Option-cases, Text, [], ap, append_assoc, inl, inr, none,
  or_else, refl, some, true, ◌++◌, ◌∙◌, ◌∷◌, ◌≡◌, ◌≢◌, ◌⊎◌,
}
use dds_rtps.Regex.{Match, Pattern, group, many, match_here, one, plus, search_text, star}

-- A text that `c+` may match.
abbrev pub Run : (ℕ → Bool) → Text → Type 0
Run c [] = ⊥
Run c (x ∷ s) = (c x ≡ true) × All (λ y. c y ≡ true) s

-- A text and its groups that a pattern may match, whatever the order of the attempts.
abbrev pub Matches : Pattern → Text → List Text → Type 0
Matches [] w gs = (w ≡ []) × (gs ≡ [])
Matches (one c ∷ p) w gs = (x : ℕ) × (v : Text) × (w ≡ x ∷ v) × (c x ≡ true) × Matches p v gs
Matches (many c ∷ p) w gs = (run : Text) × (v : Text) × (w ≡ run ++ v) × Run c run × Matches p v gs
Matches (group c ∷ p) w gs =
    (run : Text) × (v : Text) × (hs : List Text) × (w ≡ run ++ v)
    × (gs ≡ run ∷ hs)
    × Run c run
    × Matches p v hs

module _ (c : ℕ → Bool) (k : Text → Option Match) where
  -- A run of the class stands before a text that `k` accepts.
  abbrev Splits : Text → Text × Match → Type 0
  Splits s r = (rest : Text) × (s ≡ r.0 ++ rest) × All (λ y. c y ≡ true) r.0 × (k rest ≡ some r.1)

  here-Splits :
      (s : Text) (r : Text × Match) → Option.map (λ m. ([], m)) (k s) ≡ some r → Splits s r
  here-Splits s r e =
      let (m, hit, same) = (Option.map-eq-some_iff _ _).0 e in rw (← same) (s, refl, tt, hit)

  cons-Splits :
      (x : ℕ) (s : Text) (r : Text × Match)
      → c x ≡ true
      → Splits s r
      → Splits (x ∷ s) (x ∷ r.0, r.1)
  cons-Splits x s r t (rest, e, all, hit) = (rest, ap (λ y. x ∷ y) e, (t, all), hit)

  or_else-cases :
      (o o' : Option (Text × Match)) {r : Text × Match}
      → or_else o o' ≡ some r
      → (o ≡ some r) ⊎ (o' ≡ some r)
  unfolding or_else
  or_else-cases none o' e = inr e
  or_else-cases (some a) o' e = inl e

  star-Splits : (s : Text) (r : Text × Match) → star c k s ≡ some r → Splits s r
  unfolding star
  star-Splits [] r e = here-Splits [] r e
  star-Splits (x ∷ s) r e = elim (Bool-cases (c x)) [
    | inl t ↦ elim (or_else-cases _ _ (rw (t, star) at e)) [
      | inl later ↦
          let (q, hit, same) = (Option.map-eq-some_iff _ _).0 later in
          rw (← same) (cons-Splits x s q t (star-Splits s q hit))
      | inr now ↦ here-Splits (x ∷ s) r now
    ]
    | inr f ↦ here-Splits (x ∷ s) r (rw (f, star) at e)
  ]

  plus-Splits : (s : Text) (r : Text × Match) → plus c k s ≡ some r → Splits s r × Run c r.0
  unfolding plus
  plus-Splits [] r e = cc
  plus-Splits (x ∷ s) r e = elim (Bool-cases (c x)) [
    | inl t ↦
        let (q, hit, same) = (Option.map-eq-some_iff _ _).0 (rw t at e) in
        let (rest, split, all, ends) = star-Splits s q hit in
        rw (← same) (cons-Splits x s q t (rest, split, all, ends), (t, all))
    | inr f ↦ cc f
  ]

-- A match at the front of a text is a match of the pattern by a prefix.
abbrev Prefix : Pattern → Text → Match → Type 0
Prefix p s m = (rest : Text) × (s ≡ m.whole ++ rest) × Matches p m.whole m.groups

match_here-Prefix : (p : Pattern) (s : Text) (m : Match) → match_here p s ≡ some m → Prefix p s m
unfolding match_here
match_here-Prefix [] s m e = (s, cc e, (cc e, cc e))
match_here-Prefix (one c ∷ p) [] m e = cc e
match_here-Prefix (one c ∷ p) (x ∷ s) m e = elim (Bool-cases (c x)) [
  | inl t ↦
      let (n, hit, same) = (Option.map-eq-some_iff _ _).0 (rw (t, match_here) at e) in
      let (rest, split, fits) = match_here-Prefix p s n hit in
      rw (← same) (rest, ap (λ y. x ∷ y) split, (x, n.whole, refl, t, fits))
  | inr f ↦ cc (f)
]
match_here-Prefix (many c ∷ p) s m e =
    let (r, hit, same) = (Option.map-eq-some_iff _ _).0 e in
    let ((rest, split, all, ends), run) = plus-Splits c (match_here p) s r hit in
    let (rest', split', fits) = match_here-Prefix p rest r.1 ends in
    rw (← same) (rest', rw (split, split', append_assoc), (r.0, r.1.whole, refl, run, fits))
match_here-Prefix (group c ∷ p) s m e =
    let (r, hit, same) = (Option.map-eq-some_iff _ _).0 e in
    let ((rest, split, all, ends), run) = plus-Splits c (match_here p) s r hit in
    let (rest', split', fits) = match_here-Prefix p rest r.1 ends in
    rw (← same)
      (rest', rw (split, split', append_assoc), (r.0, r.1.whole, r.1.groups, refl, refl, run, fits))

-- What `search_text` returns stands in the text, and the pattern matches it with those groups.
pub search_text_sound :
    (p : Pattern) (s : Text) (m : Match)
    → search_text p s ≡ some m
    → (pre post : Text) × (s ≡ pre ++ (m.whole ++ post)) × Matches p m.whole m.groups
unfolding search_text
search_text_sound p [] m e =
    let (rest, split, fits) = match_here-Prefix p [] m e in ([], rest, split, fits)
search_text_sound p (x ∷ s) m e = elim (Option-cases (match_here p (x ∷ s))) [
  | inl missed ↦
      let (pre, post, split, fits) = search_text_sound p s m (rw (missed, search_text) at e) in
      (x ∷ pre, post, ap (λ y. x ∷ y) split, fits)
  | inr (n, hit) ↦
      let (rest, split, fits) =
        match_here-Prefix p (x ∷ s) m (hit ∙ (rw (hit, search_text) at e)) in
      ([], rest, split, fits)
]

-- Completeness: where the pattern matches a part of the text, something is hit.
module _ (c : ℕ → Bool) (k : Text → Option Match) where
  map-ne-none {ℓ κ} :
      {A : Type ℓ} {B : Type κ} (f : A → B) (o : Option A) → o ≢ none → Option.map f o ≢ none
  map-ne-none f none h = absurd (h refl)
  map-ne-none f (some a) h = cc

  or_else-ne-none : (o o' : Option (Text × Match)) → (o ≢ none) ⊎ (o' ≢ none) → or_else o o' ≢ none
  unfolding or_else
  or_else-ne-none none o' (inl h) = absurd (h refl)
  or_else-ne-none none o' (inr h) = h
  or_else-ne-none (some a) o' h = cc

  star-ne-none :
      (run rest : Text) → All (λ y. c y ≡ true) run → k rest ≢ none → star c k (run ++ rest) ≢ none
  unfolding star
  star-ne-none [] [] all h = map-ne-none _ _ h
  star-ne-none [] (x ∷ s) all h = elim (Bool-cases (c x)) [
    | inl t ↦ rw (t, star) (or_else-ne-none _ _ (inr (map-ne-none _ _ h)))
    | inr f ↦ rw (f, star) (map-ne-none _ _ h)
  ]
  star-ne-none (x ∷ run) rest (t, all) h =
      rw (t, star) (or_else-ne-none _ _ (inl (map-ne-none _ _ (star-ne-none run rest all h))))

  plus-ne-none : (run rest : Text) → Run c run → k rest ≢ none → plus c k (run ++ rest) ≢ none
  unfolding plus
  plus-ne-none [] rest r h = absurd r
  plus-ne-none (x ∷ run) rest (t, all) h = rw t (map-ne-none _ _ (star-ne-none run rest all h))

match_here-ne-none :
    (p : Pattern) (w : Text) (gs : List Text) (rest : Text)
    → Matches p w gs
    → match_here p (w ++ rest) ≢ none
unfolding match_here
match_here-ne-none [] w gs rest h = cc
match_here-ne-none (one c ∷ p) w gs rest (x, v, e, t, h) =
    rw (e, t, match_here) (map-ne-none c (λ s. none) _ _ (match_here-ne-none p v gs rest h))
match_here-ne-none (many c ∷ p) w gs rest (run, v, e, r, h) =
    rw (e, append_assoc)
      (map-ne-none c (λ s. none) _ _
        (plus-ne-none c (match_here p) run (v ++ rest) r (match_here-ne-none p v gs rest h)))
match_here-ne-none (group c ∷ p) w gs rest (run, v, hs, e, e', r, h) =
    rw (e, append_assoc)
      (map-ne-none c (λ s. none) _ _
        (plus-ne-none c (match_here p) run (v ++ rest) r (match_here-ne-none p v hs rest h)))

search_text-ne-none_here : (p : Pattern) (s : Text) → match_here p s ≢ none → search_text p s ≢ none
unfolding search_text
search_text-ne-none_here p [] h = h
search_text-ne-none_here p (x ∷ s) h = elim (Option-cases (match_here p (x ∷ s))) [
  | inl missed ↦ absurd (h missed)
  | inr (n, hit) ↦ rw (hit, search_text) (λ e. cc e)
]

pub search_text-ne-none :
    (p : Pattern) (pre w post : Text) (gs : List Text)
    → Matches p w gs
    → search_text p (pre ++ (w ++ post)) ≢ none
unfolding search_text
search_text-ne-none p [] w post gs h =
    search_text-ne-none_here p (w ++ post) (match_here-ne-none p w gs post h)
search_text-ne-none p (x ∷ pre) w post gs h =
    elim (Option-cases (match_here p (x ∷ (pre ++ (w ++ post))))) [
      | inl missed ↦ rw (missed, search_text) (search_text-ne-none p pre w post gs h)
      | inr (n, hit) ↦ rw (hit, search_text) (λ e. cc e)
    ]
