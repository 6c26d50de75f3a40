-- ===== src/Checks/Instances/Laws.antt =====
-- Each instance moves by its own samples alone.
-- The entry before a sample: the one in the lists, or a new one.
use dds_rtps.Prelude.{
  ℕ, Bool, Bool-cases, List, Option, Option-cases, Text, [], ap, false, if◌then◌else◌, inl, inr,
  none, or_else, refl, some, some_inj, text_eq, text_eq_iff, ◌||◌, ◌∙◌, ◌∷◌, ◌≡◌,
}
use dds_rtps.Checks.Instances.{Seen, visit_instance}
use dds_rtps.Checks.Ordering.Trace.{sizes_of}
use dds_rtps.Checks.Table.{
  enter, find, find-enter_ne, find-enter_self, find-modify, first_color, first_color-enter,
  first_color-modify, modify,
}
use dds_rtps.Samples.{Sample}

abbrev pub entry_or : {P : Type 0} → P → Option P → P
entry_or p none = p
entry_or p (some q) = q

module _ {P : Type 0} (start : ℕ → P) (step : P → ℕ → Option (P × Bool)) where
  abbrev pub first_of_seen : Seen P → List Sample → Option Text
  first_of_seen seen [] = first_color seen
  first_of_seen seen (s ∷ read) = or_else (first_color seen) (some s.color)

  -- The steps of one instance through a list of sizes; `none` where one is refused.
  abbrev pub steps : Option P → List ℕ → Option (Option P)
  steps o [] = some o
  steps o (x ∷ xs) = elim (step (entry_or (start x) o) x) [
    | none ↦ none
    | some (q, noticed) ↦ steps (some q) xs
  ]

  -- Whether a step of one instance through a list of sizes notices something.
  abbrev pub notices : Option P → List ℕ → Bool
  notices o [] = false
  notices o (x ∷ xs) = elim (step (entry_or (start x) o) x) [
    | none ↦ false
    | some (q, noticed) ↦ noticed || notices (some q) xs
  ]

  -- What an accepted sample changes.
  pub record Moved (s : Sample) (seen seen' : Seen P) (noticed : Bool) : Type 0 where
    pub entry : P
    pub stepped : step (entry_or (start s.size) (find s.color seen)) s.size ≡ some (entry, noticed)
    pub at_color :
        (c : Text) → find c seen' ≡ (if text_eq s.color c then some entry else find c seen)
    pub first : first_color seen' ≡ or_else (first_color seen) (some s.color)

  module _ (s : Sample) (seen : Seen P) where
    abbrev known : Seen P
    known = enter s.color (start s.size) seen

    find-known : find s.color known ≡ some (entry_or (start s.size) (find s.color seen))
    find-known = elim (Option-cases (find s.color seen)) [
      | inl missed ↦ find-enter_self s.color (start s.size) seen ∙ rw missed refl
      | inr (p, hit) ↦ find-enter_self s.color (start s.size) seen ∙ rw hit refl
    ]

    find-modify-known :
        (q : P) (c : Text)
        → find c (modify s.color q known) ≡ (if text_eq s.color c then some q else find c seen)
    find-modify-known q c = elim (Bool-cases (text_eq s.color c)) [
      | inl same ↦
          let e = (text_eq_iff s.color c).0 same in rw (find-modify, same, ← e, find-known) refl
      | inr other ↦
          rw (find-modify, other)
            (find-enter_ne s.color c (start s.size) seen (λ e. cc ((text_eq_iff s.color c).1 e)))
    ]

    pub visit-Moved :
        (seen' : Seen P) (noticed : Bool)
        → visit_instance start step s seen ≡ some (seen', noticed)
        → Moved s seen seen' noticed
    unfolding visit_instance
    visit-Moved seen' noticed e =
        elim (Option-cases (step (entry_or (start s.size) (find s.color seen)) s.size)) [
          | inl refused ↦ cc (rw (visit_instance, find-known, refused) at e)
          | inr (q, moved) ↦
              let e' : some (modify s.color q.0 known, q.1) ≡ some (seen', noticed) =
                rw (visit_instance, find-known, moved) at e in
              let e'' : (modify s.color q.0 known, q.1) ≡ (seen', noticed) = some_inj e' in
              let table : modify s.color q.0 known ≡ seen' = ap (λ p. p.0) e'' in
              let event : q.1 ≡ noticed = ap (λ p. p.1) e'' in
              record {
                entry = q.0;
                stepped = moved ∙ ap (λ b. some (q.0, b)) event;
                at_color = λ c. rw (← table) (find-modify-known q.0 c);
                first =
                    rw (← table, first_color-modify)
                      (first_color-enter s.color (start s.size) seen);
              }
        ]

    -- A refused sample is refused by the step of its instance.
    pub visit-none :
        visit_instance start step s seen ≡ none
        → step (entry_or (start s.size) (find s.color seen)) s.size ≡ none
    unfolding visit_instance
    visit-none e = elim (Option-cases (step (entry_or (start s.size) (find s.color seen)) s.size)) [
      | inl refused ↦ refused
      | inr (q, moved) ↦ cc (rw (visit_instance, find-known, moved) at e)
    ]

  module _ {s : Sample} {seen seen' : Seen P} {noticed : Bool}
      (v : Moved s seen seen' noticed) where
    -- The steps of each instance through the samples from here on.
    pub steps-Moved :
        (c : Text) (read : List Sample)
        → steps (find c seen) (sizes_of c (s ∷ read)) ≡ steps (find c seen') (sizes_of c read)
    steps-Moved c read = elim (Bool-cases (text_eq s.color c)) [
      | inl same ↦
          let stepped : step (entry_or (start s.size) (find c seen)) s.size
              ≡ some (v.entry, noticed) =
            rw ((text_eq_iff s.color c).0 same) at v.stepped in
          rw (v.at_color, same, stepped) refl
      | inr other ↦ rw (v.at_color, other) refl
    ]

    pub notices-Moved :
        (c : Text) (read : List Sample)
        → notices (find c seen) (sizes_of c (s ∷ read)) ≡ (
            if text_eq s.color c
            then noticed || notices (find c seen') (sizes_of c read)
            else notices (find c seen') (sizes_of c read))
    notices-Moved c read = elim (Bool-cases (text_eq s.color c)) [
      | inl same ↦
          let stepped : step (entry_or (start s.size) (find c seen)) s.size
              ≡ some (v.entry, noticed) =
            rw ((text_eq_iff s.color c).0 same) at v.stepped in
          rw (v.at_color, same, stepped) refl
      | inr other ↦ rw (v.at_color, other) refl
    ]

    pub first_of_seen-Moved :
        (read : List Sample) → first_of_seen seen' read ≡ first_of_seen seen (s ∷ read)
    unfolding or_else
    first_of_seen-Moved [] = v.first
    first_of_seen-Moved (t ∷ read) = rw v.first (some_first (first_color seen))
      where
        some_first :
            (o : Option Text)
            → or_else (or_else o (some s.color)) (some t.color) ≡ or_else o (some s.color)
        some_first none = refl
        some_first (some c) = refl
