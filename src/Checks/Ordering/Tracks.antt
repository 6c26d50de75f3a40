-- ===== src/Checks/Ordering/Tracks.antt =====
-- One sample against the sizes that its instance has shown before.
use mathlib.Core.Option
use dds_rtps.Prelude.{
  ℕ, Bool-cases, Option, Option-cases, Text, ap, arith, false, if◌then◌else◌, inl, inr, none,
  or_else, refl, some, some_inj, subst, sym, text_eq, text_eq_iff, ◌+◌, ◌<◌, ◌∙◌, ◌≡◌, ◌≢◌,
}
use dds_rtps.Checks.Ordering.{Track, Tracks, fresh, greater_size, next_size, revise, visit}
use dds_rtps.Checks.Table.{
  enter, find, find-enter_ne, find-enter_self, find-modify, first_color, first_color-enter,
  first_color-modify, modify,
}
use dds_rtps.Samples.{Sample}

-- The last size of a color.
abbrev pub last_size : Tracks → Text → Option ℕ
last_size tracks color = Option.map (λ (t : Track). t.seq_num) (find color tracks)

-- Every entry has met its first sample.
abbrev pub Settled : Tracks → Type 0
Settled tracks = (color : Text) (t : Track) → find color tracks ≡ some t → t.first_iteration ≡ false

-- A relation that holds between the last size, if there is one, and the next.
abbrev pub Follows : (ℕ → ℕ → Type 0) → Option ℕ → ℕ → Type 0
Follows R none y = Unit
Follows R (some x) y = R x y

-- A comparison of the code decides a relation, and keeps the new size.
pub record Decides (advance : ℕ → ℕ → Option ℕ) (R : ℕ → ℕ → Type 0) : Type 0 where
  pub accepts : (x y n : ℕ) → advance x y ≡ some n → R x y × (n ≡ y)
  pub refuses : (x y : ℕ) → advance x y ≡ none → ¬ R x y

pub greater_size-Decides : Decides greater_size ◌<◌
unfolding greater_size
greater_size-Decides = record {
  accepts = λ x y n h. (ground arith, ground arith);
  refuses = λ x y h. ground arith;
}

pub next_size-Decides : Decides next_size (λ x y. x + 1 ≡ y)
unfolding next_size
next_size-Decides = record {
  accepts = λ x y n h. (ground arith, ground arith);
  refuses = λ x y h. ground arith;
}

module _ (advance : ℕ → ℕ → Option ℕ) (R : ℕ → ℕ → Type 0) (d : Decides advance R) where
  -- What a sample of an instance changes.
  pub record Visited (s : Sample) (tracks tracks' : Tracks) : Type 0 where
    pub follows : Follows R (last_size tracks s.color) s.size
    pub settled : Settled tracks'
    pub last :
        (c : Text)
        → last_size tracks' c ≡ (if text_eq s.color c then some s.size else last_size tracks c)
    pub first : first_color tracks' ≡ or_else (first_color tracks) (some s.color)

  module _ (s : Sample) (tracks : Tracks) (settled : Settled tracks) where
    abbrev known : Tracks
    known = enter s.color (fresh s.size) tracks

    find-known : find s.color known ≢ none
    find-known = rw find-enter_self (elim (Option-cases (find s.color tracks)) [
      | inl missed ↦ rw missed (λ e. cc e)
      | inr (t, hit) ↦ rw hit (λ e. cc e)
    ])

    -- The entry of each color after a write at the sample's color.
    find-modify-known :
        (t : Track) (c : Text)
        → find c (modify s.color t known) ≡ (if text_eq s.color c then some t else find c tracks)
    find-modify-known t c = elim (Bool-cases (text_eq s.color c)) [
      | inl same ↦
          let e = (text_eq_iff s.color c).0 same in
          rw (find-modify, same, ← e) (there (find s.color known) find-known)
      | inr other ↦
          rw (find-modify, other)
            (find-enter_ne s.color c (fresh s.size) tracks (λ e. cc ((text_eq_iff s.color c).1 e)))
    ]
      where
        there : (o : Option Track) → o ≢ none → Option.map (λ _. t) o ≡ some t
        there none h = absurd (h refl)
        there (some u) h = refl

    modify-Visited :
        (t : Track)
        → t.first_iteration ≡ false
        → t.seq_num ≡ s.size
        → Follows R (last_size tracks s.color) s.size
        → Visited s tracks (modify s.color t known)
    modify-Visited t met size follows = record {
      follows = follows;
      settled = λ c u h. ground (arith, find-modify-known t c, settled c u);
      last = λ c. rw (find-modify-known t c) (elim (Bool-cases (text_eq s.color c)) [
        | inl same ↦ rw same (ap some size)
        | inr other ↦ rw other refl
      ]);
      first = rw first_color-modify (first_color-enter s.color (fresh s.size) tracks);
    }

    -- What the code does with the entry that it finds in the list.
    visit_lem : visit advance s tracks ≡ elim (find s.color tracks) [
      | none ↦ some (modify s.color (record { seq_num = s.size; first_iteration = false }) known)
      | some t ↦ elim (advance t.seq_num s.size) [
        | none ↦ none
        | some n ↦ some (modify s.color (record t { seq_num = n }) known)
      ]
    ]
    unfolding visit revise
    visit_lem = elim (Option-cases (find s.color tracks)) [
      | inl missed ↦
          let entered : find s.color known ≡ some (fresh s.size) =
            find-enter_self s.color (fresh s.size) tracks ∙ rw missed refl in
          rw (missed, visit, entered) refl
      | inr (t, hit) ↦
          let entered : find s.color known ≡ some t =
            find-enter_self s.color (fresh s.size) tracks ∙ rw hit refl in
          rw (hit, visit, entered) (compared t (settled s.color t hit))
    ]
      where
        compared :
            (t : Track)
            → t.first_iteration ≡ false
            → elim (revise advance t s.size) [
              | none ↦ none
              | some u ↦ some (modify s.color u known)
            ]
              ≡ elim (advance t.seq_num s.size) [
                | none ↦ none
                | some n ↦ some (modify s.color (record t { seq_num = n }) known)
              ]
        compared t met = elim (Option-cases (advance t.seq_num s.size)) [
          | inl bad ↦ rw (revise, met, bad) refl
          | inr (n, good) ↦ rw (revise, met, good) refl
        ]

    -- An accepted sample follows the last one of its instance, and is the last one then.
    pub visit-Visited :
        (tracks' : Tracks) → visit advance s tracks ≡ some tracks' → Visited s tracks tracks'
    visit-Visited tracks' e = elim (Option-cases (find s.color tracks)) [
      | inl missed ↦
          let t : Track = record { seq_num = s.size; first_iteration = false } in
          let e' : some (modify s.color t known) ≡ some tracks' =
            rw missed at (sym visit_lem ∙ e) in
          subst (λ x. Visited s tracks x) (some_inj e') (modify-Visited t refl refl (rw missed tt))
      | inr (t, hit) ↦ elim (Option-cases (advance t.seq_num s.size)) [
        | inl bad ↦ cc (rw (hit, bad) at (sym visit_lem ∙ e))
        | inr (n, good) ↦
            let u : Track = record t { seq_num = n } in
            let e' : some (modify s.color u known) ≡ some tracks' =
              rw (hit, good) at (sym visit_lem ∙ e) in
            let (related, same) = d.accepts t.seq_num s.size n good in
            subst (λ x. Visited s tracks x) (some_inj e')
              (modify-Visited u (settled s.color t hit) same (rw hit related))
      ]
    ]

    -- A refused sample does not follow the last one of its instance.
    pub visit-none : visit advance s tracks ≡ none → ¬ Follows R (last_size tracks s.color) s.size
    visit-none e = elim (Option-cases (find s.color tracks)) [
      | inl missed ↦ cc (rw missed at (sym visit_lem ∙ e))
      | inr (t, hit) ↦ elim (Option-cases (advance t.seq_num s.size)) [
        | inl bad ↦ rw hit (d.refuses t.seq_num s.size bad)
        | inr (n, good) ↦ cc (rw (hit, good) at (sym visit_lem ∙ e))
      ]
    ]
