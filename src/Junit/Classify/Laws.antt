-- ===== src/Junit/Classify/Laws.antt =====
-- The most frequent of the mismatching codes.
-- Each key stands once.
use dds_rtps.Prelude.{
  ℕ, Bool, Bool-cases, List, Text, [], arith, false, if◌then◌else◌, inl, inr, ltb, none, refl, some,
  some_inj, subst, sym, text_eq, text_eq_iff, true, ◌+◌, ◌∙◌, ◌∷◌, ◌≡◌, ◌≤◌, ◌⊎◌,
}
use dds_rtps.Counts.{count_all, count_where, get, raise_by}
use dds_rtps.Counts.Laws.{get-count_all}
use dds_rtps.Junit.Classify.{dominant_of, most_from}

Absent : Text → List (Text × ℕ) → Type 0
Absent k [] = Unit
Absent k ((j, n) ∷ d) = (text_eq k j ≡ false) × Absent k d

AreOnce : List (Text × ℕ) → Type 0
unfolding Absent
AreOnce [] = Unit
AreOnce ((j, n) ∷ d) = Absent j d × AreOnce d

text_eq_sym : (a b : Text) → text_eq a b ≡ false → text_eq b a ≡ false
text_eq_sym a b h = elim (Bool-cases (text_eq b a)) [
  | inl same ↦ cc (sym h ∙ (text_eq_iff a b).1 (sym ((text_eq_iff b a).0 same)))
  | inr other ↦ other
]

raise_by-Absent :
    (j k : Text) (n : ℕ) (d : List (Text × ℕ))
    → text_eq j k ≡ false
    → Absent j d
    → Absent j (raise_by text_eq k n d)
unfolding raise_by Absent
raise_by-Absent j k n [] h a = (h, tt)
raise_by-Absent j k n ((i, m) ∷ d) h (a, more) = elim (Bool-cases (text_eq k i)) [
  | inl same ↦ rw same (a, more)
  | inr other ↦ rw other (a, raise_by-Absent j k n d h more)
]

raise_by-AreOnce :
    (k : Text) (n : ℕ) (d : List (Text × ℕ)) → AreOnce d → AreOnce (raise_by text_eq k n d)
unfolding raise_by AreOnce Absent
raise_by-AreOnce k n [] h = (tt, tt)
raise_by-AreOnce k n ((i, m) ∷ d) (a, h) = elim (Bool-cases (text_eq k i)) [
  | inl same ↦ rw same (a, h)
  | inr other ↦
      rw other (raise_by-Absent i k n d (text_eq_sym k i other) a, raise_by-AreOnce k n d h)
]

count_all-AreOnce :
    (ks : List Text) (d : List (Text × ℕ)) → AreOnce d → AreOnce (count_all text_eq ks d)
unfolding count_all
count_all-AreOnce [] d h = h
count_all-AreOnce (k ∷ ks) d h =
    count_all-AreOnce ks (raise_by text_eq k 1 d) (raise_by-AreOnce k 1 d h)

-- An entry is in the dictionary.
IsEntry : Text × ℕ → List (Text × ℕ) → Type 0
IsEntry e [] = ⊥
IsEntry e (x ∷ d) = (e ≡ x) ⊎ IsEntry e d

Absent-apart :
    (k : Text) (e : Text × ℕ) (d : List (Text × ℕ))
    → Absent k d
    → IsEntry e d
    → text_eq e.0 k ≡ false
unfolding Absent IsEntry
Absent-apart k e [] a i = absurd i
Absent-apart k e (x ∷ d) (a, more) (inl same) = rw same (text_eq_sym k x.0 a)
Absent-apart k e (x ∷ d) (a, more) (inr later) = Absent-apart k e d more later

IsEntry-get :
    (e : Text × ℕ) (d : List (Text × ℕ)) → AreOnce d → IsEntry e d → get text_eq e.0 d ≡ e.1
unfolding get AreOnce IsEntry
IsEntry-get e [] h i = absurd i
IsEntry-get e ((k, n) ∷ d) h (inl same) = rw same (rw ((text_eq_iff k k).1 refl) refl)
IsEntry-get e ((k, n) ∷ d) (a, h) (inr later) =
    rw (Absent-apart k e d a later) (IsEntry-get e d h later)

-- What `most_from` gives is the first entry or one of the others, and none of them is greater.
most_from-IsEntry :
    (best : Text × ℕ) (d : List (Text × ℕ))
    → (most_from best d ≡ best) ⊎ IsEntry (most_from best d) d
unfolding most_from IsEntry
most_from-IsEntry best [] = inl refl
most_from-IsEntry best (e ∷ d) = elim (Bool-cases (ltb best.1 e.1)) [
  | inl greater ↦
      let step : most_from best (e ∷ d) ≡ most_from e d = rw (greater, most_from) refl in
      subst (λ r. (r ≡ best) ⊎ ((r ≡ e) ⊎ IsEntry r d)) (sym step) (inr (most_from-IsEntry e d))
  | inr not_greater ↦
      let step : most_from best (e ∷ d) ≡ most_from best d = rw (not_greater, most_from) refl in
      subst (λ r. (r ≡ best) ⊎ ((r ≡ e) ⊎ IsEntry r d)) (sym step)
        (elim (most_from-IsEntry best d) [ inl same ↦ inl same | inr later ↦ inr (inr later) ])
]

most_from-best : (best : Text × ℕ) (d : List (Text × ℕ)) → best.1 ≤ (most_from best d).1
unfolding most_from
most_from-best best [] = omega arith
most_from-best best (e ∷ d) = elim (Bool-cases (ltb best.1 e.1)) [
  | inl greater ↦ rw (greater, most_from) (ground (arith, most_from-best e d))
  | inr not_greater ↦ rw (not_greater, most_from) (most_from-best best d)
]

get-most_from :
    (k : Text) (best : Text × ℕ) (d : List (Text × ℕ)) → get text_eq k d ≤ (most_from best d).1
unfolding most_from get
get-most_from k best [] = omega arith
get-most_from k best (e ∷ d) = elim (Bool-cases (ltb best.1 e.1)) [
  | inl greater ↦
      rw (greater, most_from) (either (text_eq k e.0) e (most_from-best e d) (get-most_from k e d))
  | inr not_greater ↦
      rw (not_greater, most_from)
        (either (text_eq k e.0) best (ground (arith, most_from-best best d))
          (get-most_from k best d))
]
  where
    either :
        (b : Bool) (first : Text × ℕ)
        → e.1 ≤ (most_from first d).1
        → get text_eq k d ≤ (most_from first d).1
        → (if b then e.1 else get text_eq k d) ≤ (most_from first d).1
    either true first here later = here
    either false first here later = later

nothing_twice : AreOnce []
unfolding AreOnce
nothing_twice = tt

get-most_from_first :
    (k : Text) (x : Text × ℕ) (more : List (Text × ℕ))
    → get text_eq k (x ∷ more) ≤ (most_from x more).1
unfolding get
get-most_from_first k x more = elim (Bool-cases (text_eq k x.0)) [
  | inl here ↦ rw here (most_from-best x more)
  | inr there ↦ rw there (get-most_from k x more)
]

most_from-IsEntry_first :
    (x : Text × ℕ) (more : List (Text × ℕ)) → IsEntry (most_from x more) (x ∷ more)
unfolding IsEntry
most_from-IsEntry_first = most_from-IsEntry

-- The code that decides the class of a failure is one of the mismatching codes, and none of them
-- occurs more often.
pub dominant_of-IsMost :
    (ps : List Text) (d : Text)
    → dominant_of ps ≡ some d
    → (1 ≤ count_where (text_eq d) ps)
      × ((c : Text) → count_where (text_eq c) ps ≤ count_where (text_eq d) ps)
unfolding dominant_of get
dominant_of-IsMost [] d e = cc e
dominant_of-IsMost (p ∷ ps) d e = from_counts (count_all text_eq (p ∷ ps) []) refl e
  where
    own_count : 1 ≤ count_where (text_eq p) (p ∷ ps)
    own_count = rw ((text_eq_iff p p).1 refl) (omega arith)

    counted :
        (counts : List (Text × ℕ))
        → count_all text_eq (p ∷ ps) [] ≡ counts
        → (c : Text) → get text_eq c counts ≡ 0 + count_where (text_eq c) (p ∷ ps)
    counted counts same c =
        subst (λ l. get text_eq c l ≡ 0 + count_where (text_eq c) (p ∷ ps)) same
          (get-count_all text_eq text_eq_iff c (p ∷ ps) [])

    from_counts :
        (counts : List (Text × ℕ))
        → count_all text_eq (p ∷ ps) [] ≡ counts
        → elim counts [ [] ↦ none | x ∷ more ↦ some (most_from x more).0 ] ≡ some d
        → (1 ≤ count_where (text_eq d) (p ∷ ps))
          × ((c : Text) → count_where (text_eq c) (p ∷ ps) ≤ count_where (text_eq d) (p ∷ ps))
    from_counts [] same e = cc e
    from_counts (x ∷ more) same e =
        let best = most_from x more in
        let once : AreOnce (x ∷ more) =
          subst AreOnce same (count_all-AreOnce (p ∷ ps) [] nothing_twice) in
        let of_d : get text_eq d (x ∷ more) ≡ best.1 =
          subst (λ k. get text_eq k (x ∷ more) ≡ best.1) (some_inj e)
            (IsEntry-get best (x ∷ more) once (most_from-IsEntry_first x more)) in
        let at_most : (c : Text)
            → count_where (text_eq c) (p ∷ ps) ≤ count_where (text_eq d) (p ∷ ps) =
          (λ c. omega (
            arith,
            counted (x ∷ more) same c,
            counted (x ∷ more) same d,
            of_d,
            get-most_from_first c x more,
          )) in
        (omega (arith, at_most p, own_count), at_most)
