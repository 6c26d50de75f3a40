-- ===== src/Regex/Loosen.antt =====
-- Where one pattern is hit, so is a looser one, and so is what is left without its first item.
use dds_rtps.Prelude.{
  ℕ, All, Bool, List, Option-cases, Text, [], ap, append_assoc, inl, inr, length, none, refl, some,
  suc, true, ◌++◌, ◌∙◌, ◌∷◌, ◌≡◌, ◌≢◌,
}
use dds_rtps.Regex.{Item, Match, Pattern, group, many, one, search_text}
use dds_rtps.Regex.Laws.{Matches, Run, search_text-ne-none, search_text_sound}

-- The pattern matches some part of the text.
abbrev pub Occurs : Pattern → Text → Type 0
Occurs p s =
    (pre : Text) × (w : Text) × (post : Text) × (gs : List Text) × (s ≡ pre ++ (w ++ post))
    × Matches p w gs

-- `re.search` returns a match exactly where the pattern matches some part of the text.
pub search_text-Occurs : (p : Pattern) (s : Text) → search_text p s ≢ none → Occurs p s
search_text-Occurs p s h = elim (Option-cases (search_text p s)) [
  | inl missed ↦ absurd (h missed)
  | inr (m, hit) ↦
      let (pre, post, split, fits) = search_text_sound p s m hit in
      (pre, m.whole, post, m.groups, split, fits)
]

pub Occurs-search_text : (p : Pattern) (s : Text) → Occurs p s → search_text p s ≢ none
Occurs-search_text p s (pre, w, post, gs, split, fits) =
    rw split (search_text-ne-none p pre w post gs fits)

-- The first item of a match may be left to the text before it.
Matches-tail :
    (i : Item) (p : Pattern) (w : Text) (gs : List Text)
    → Matches (i ∷ p) w gs
    → (run : Text) × (v : Text) × (hs : List Text) × (w ≡ run ++ v) × Matches p v hs
Matches-tail (one c) p w gs (x, v, e, t, h) = (x ∷ [], v, gs, e, h)
Matches-tail (many c) p w gs (run, v, e, r, h) = (run, v, gs, e, h)
Matches-tail (group c) p w gs (run, v, hs, e, e', r, h) = (run, v, hs, e, h)

pub Occurs-tail : (i : Item) (p : Pattern) (s : Text) → Occurs (i ∷ p) s → Occurs p s
Occurs-tail i p s (pre, w, post, gs, split, fits) =
    let (run, v, hs, e, h) = Matches-tail i p w gs fits in
    (pre ++ run, v, post, hs, split ∙ (rw (e, append_assoc, append_assoc)), h)

abbrev class : Item → ℕ → Bool
class (one c) = c
class (many c) = c
class (group c) = c

abbrev Implies : (ℕ → Bool) → (ℕ → Bool) → Type 0
Implies c d = (x : ℕ) → c x ≡ true → d x ≡ true

-- A repetition is not replaced by a single character.
abbrev Repeats : Item → Item → Type 0
Repeats (one c) j = Unit
Repeats (many c) (one d) = ⊥
Repeats (many c) j = Unit
Repeats (group c) (one d) = ⊥
Repeats (group c) j = Unit

-- Item by item, the second pattern matches what the first one does.
abbrev pub Loosens : Pattern → Pattern → Type 0
Loosens [] [] = Unit
Loosens [] (j ∷ q) = ⊥
Loosens (i ∷ p) [] = ⊥
Loosens (i ∷ p) (j ∷ q) = Repeats i j × Implies (class i) (class j) × Loosens p q

Run-loosen : (c d : ℕ → Bool) (s : Text) → Implies c d → Run c s → Run d s
Run-loosen c d [] f h = h
Run-loosen c d (x ∷ s) f (t, h) = (f x t, All-loosen s h)
  where
    All-loosen : (s : Text) → All (λ y. c y ≡ true) s → All (λ y. d y ≡ true) s
    All-loosen [] k = tt
    All-loosen (y ∷ s) (u, k) = (f y u, All-loosen s k)

Matches-loosen :
    (p q : Pattern) (w : Text) (gs : List Text)
    → Loosens p q
    → Matches p w gs
    → (hs : List Text) × Matches q w hs
Matches-loosen [] [] w gs l h = (gs, h)
Matches-loosen [] (j ∷ q) w gs l h = absurd l
Matches-loosen (i ∷ p) [] w gs l h = absurd l
Matches-loosen (one c ∷ p) (one d ∷ q) w gs (_, f, l) (x, v, e, t, h) =
    let (hs, k) = Matches-loosen p q v gs l h in (hs, (x, v, e, f x t, k))
Matches-loosen (one c ∷ p) (many d ∷ q) w gs (_, f, l) (x, v, e, t, h) =
    let (hs, k) = Matches-loosen p q v gs l h in (hs, (x ∷ [], v, e, (f x t, tt), k))
Matches-loosen (one c ∷ p) (group d ∷ q) w gs (_, f, l) (x, v, e, t, h) =
    let (hs, k) = Matches-loosen p q v gs l h in
    ((x ∷ []) ∷ hs, (x ∷ [], v, hs, e, refl, (f x t, tt), k))
Matches-loosen (many c ∷ p) (one d ∷ q) w gs (n, f, l) h = absurd n
Matches-loosen (many c ∷ p) (many d ∷ q) w gs (_, f, l) (run, v, e, r, h) =
    let (hs, k) = Matches-loosen p q v gs l h in (hs, (run, v, e, Run-loosen c d run f r, k))
Matches-loosen (many c ∷ p) (group d ∷ q) w gs (_, f, l) (run, v, e, r, h) =
    let (hs, k) = Matches-loosen p q v gs l h in
    (run ∷ hs, (run, v, hs, e, refl, Run-loosen c d run f r, k))
Matches-loosen (group c ∷ p) (one d ∷ q) w gs (n, f, l) h = absurd n
Matches-loosen (group c ∷ p) (many d ∷ q) w gs (_, f, l) (run, v, gs', e, _, r, h) =
    let (hs, k) = Matches-loosen p q v gs' l h in (hs, (run, v, e, Run-loosen c d run f r, k))
Matches-loosen (group c ∷ p) (group d ∷ q) w gs (_, f, l) (run, v, gs', e, _, r, h) =
    let (hs, k) = Matches-loosen p q v gs' l h in
    (run ∷ hs, (run, v, hs, e, refl, Run-loosen c d run f r, k))

pub Occurs-loosen : (p q : Pattern) (s : Text) → Loosens p q → Occurs p s → Occurs q s
Occurs-loosen p q s l (pre, w, post, gs, split, fits) =
    let (hs, k) = Matches-loosen p q w gs l fits in (pre, w, post, hs, split, k)

abbrev pub group_count : Pattern → ℕ
group_count [] = 0
group_count (one c ∷ p) = group_count p
group_count (many c ∷ p) = group_count p
group_count (group c ∷ p) = suc (group_count p)

Matches-length :
    (p : Pattern) (w : Text) (gs : List Text) → Matches p w gs → length gs ≡ group_count p
Matches-length [] w gs h = rw h.1
Matches-length (one c ∷ p) w gs (x, v, e, t, h) = Matches-length p v gs h
Matches-length (many c ∷ p) w gs (run, v, e, r, h) = Matches-length p v gs h
Matches-length (group c ∷ p) w gs (run, v, hs, e, e', r, h) =
    rw e' (ap suc (Matches-length p v hs h))

-- A match has as many groups as the pattern.
pub length-search_text :
    (p : Pattern) (s : Text) (m : Match)
    → search_text p s ≡ some m
    → length m.groups ≡ group_count p
length-search_text p s m hit =
    let (pre, post, split, fits) = search_text_sound p s m hit in
    Matches-length p m.whole m.groups fits
