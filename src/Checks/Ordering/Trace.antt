-- ===== src/Checks/Ordering/Trace.antt =====
-- What a run has printed, instance by instance, and how one sample extends it.
use dds_rtps.Prelude.{
  ℕ, Bool-cases, List, Option, Text, [], if◌then◌else◌, inl, inr, none, or_else, refl, some,
  text_eq, text_eq_iff, ◌∷◌, ◌≡◌,
}
use dds_rtps.Checks.Ordering.{Tracks}
use dds_rtps.Checks.Ordering.Tracks.{Decides, Follows, Visited, last_size}
use dds_rtps.Checks.Table.{first_color}
use dds_rtps.Child.{Feed, eof, found, timeout}
use dds_rtps.Samples.{Sample, search_sample}

abbrev pub with_sample : Option Sample → List Sample → List Sample
with_sample none read = read
with_sample (some s) read = s ∷ read

-- The samples that the subscriber printed up to the first TIMEOUT or EOF.
abbrev pub printed : Text → Feed → List Sample
printed text [] = with_sample (search_sample text) []
printed text (found i text' ∷ feed) = with_sample (search_sample text) (printed text' feed)
printed text (timeout ∷ feed) = with_sample (search_sample text) []
printed text (eof ∷ feed) = with_sample (search_sample text) []

-- The sizes of one instance, in order.
abbrev pub sizes_of : Text → List Sample → List ℕ
sizes_of color [] = []
sizes_of color (s ∷ read) =
    if text_eq s.color color then s.size ∷ sizes_of color read else sizes_of color read

-- A relation holds from each number to the next, the first of them after an earlier one if given.
abbrev pub Linked : (ℕ → ℕ → Type 0) → Option ℕ → List ℕ → Type 0
Linked R o [] = Unit
Linked R none (x ∷ xs) = Linked R (some x) xs
Linked R (some y) (x ∷ xs) = R y x × Linked R (some x) xs

abbrev pub first_of : Tracks → List Sample → Option Text
first_of tracks [] = first_color tracks
first_of tracks (s ∷ read) = or_else (first_color tracks) (some s.color)

module _ (R : ℕ → ℕ → Type 0) where
  pub Linked-cons :
      (o : Option ℕ) (x : ℕ) (xs : List ℕ)
      → Follows R o x
      → Linked R (some x) xs
      → Linked R o (x ∷ xs)
  Linked-cons none x xs f l = l
  Linked-cons (some y) x xs f l = (f, l)

  pub Linked-tail :
      (o : Option ℕ) (x : ℕ) (xs : List ℕ)
      → Linked R o (x ∷ xs)
      → Follows R o x × Linked R (some x) xs
  Linked-tail none x xs l = (tt, l)
  Linked-tail (some y) x xs l = l

module _ (advance : ℕ → ℕ → Option ℕ) (R : ℕ → ℕ → Type 0) (d : Decides advance R) where
  -- From the state after a sample to the state before it, and back.
  module _ {s : Sample} {tracks tracks' : Tracks} (v : Visited advance R d s tracks tracks') where
    pub Linked-visit :
        (c : Text) (read : List Sample)
        → Linked R (last_size tracks' c) (sizes_of c read)
        → Linked R (last_size tracks c) (sizes_of c (s ∷ read))
    Linked-visit c read l = elim (Bool-cases (text_eq s.color c)) [
      | inl same ↦ rw same (
          Linked-cons R (last_size tracks c) s.size (sizes_of c read)
            (rw (← (text_eq_iff s.color c).0 same) v.follows) (rw same at (rw v.last at l)))
      | inr other ↦ rw other (rw other at (rw v.last at l))
    ]

    pub Linked-unvisit :
        (c : Text) (read : List Sample)
        → Linked R (last_size tracks c) (sizes_of c (s ∷ read))
        → Linked R (last_size tracks' c) (sizes_of c read)
    Linked-unvisit c read l = elim (Bool-cases (text_eq s.color c)) [
      | inl same ↦
          rw (v.last, same)
            (Linked-tail R (last_size tracks c) s.size (sizes_of c read) (rw same at l)).1
      | inr other ↦ rw (v.last, other) (rw other at l)
    ]

    pub first_of-visit : (read : List Sample) → first_of tracks' read ≡ first_of tracks (s ∷ read)
    unfolding or_else
    first_of-visit [] = v.first
    first_of-visit (t ∷ read) = rw v.first (some_first (first_color tracks))
      where
        some_first :
            (o : Option Text)
            → or_else (or_else o (some s.color)) (some t.color) ≡ or_else o (some s.color)
        some_first none = refl
        some_first (some c) = refl
