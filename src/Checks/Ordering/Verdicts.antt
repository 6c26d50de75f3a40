-- ===== src/Checks/Ordering/Verdicts.antt =====
-- What a run that ended with a verdict has shown, and how one sample extends it.
use dds_rtps.Prelude.{
  ℕ, List, Option, Text, [], ap, arith, length, none, or_else, or_else-some, refl, some, some_inj,
  sym, text_eq, text_eq_iff, true, ◌++◌, ◌+◌, ◌∙◌, ◌∷◌, ◌≡◌, ◌≤◌,
}
use dds_rtps.Checks.{max_samples_read}
use dds_rtps.Checks.Ordering.{Tracks, is_first}
use dds_rtps.Checks.Ordering.Rounds.{is_first-eq-true}
use dds_rtps.Checks.Ordering.Trace.{
  Linked, Linked-tail, Linked-unvisit, Linked-visit, first_of, first_of-visit, sizes_of,
}
use dds_rtps.Checks.Ordering.Tracks.{Decides, Follows, Visited, last_size}
use dds_rtps.Checks.Table.{first_color}
use dds_rtps.Child.{returned}
use dds_rtps.Samples.{Sample}

-- What a run that ends with OK has shown: a first part of the samples in which each instance's
-- sizes are linked, the first instance's often enough.
pub record IsOrdered (R : ℕ → ℕ → Type 0) (n : ℕ) (tracks : Tracks) (samples : List Sample)
    : Type 0 where
  pub read : List Sample
  pub rest : List Sample
  pub split : samples ≡ read ++ rest
  pub linked : (c : Text) → Linked R (last_size tracks c) (sizes_of c read)
  pub counted :
      (c : Text) → first_of tracks read ≡ some c → max_samples_read ≤ n + length (sizes_of c read)
  pub nonempty : first_of tracks read ≡ none → max_samples_read ≤ n

-- What a run that ends with DATA_NOT_CORRECT has shown: a first part of the samples in which the
-- sizes of some instance are not linked.
pub record IsBroken (R : ℕ → ℕ → Type 0) (tracks : Tracks) (samples : List Sample) : Type 0 where
  pub read : List Sample
  pub rest : List Sample
  pub split : samples ≡ read ++ rest
  pub color : Text
  pub broken : ¬ Linked R (last_size tracks color) (sizes_of color read)

pub first_of-eq-some :
    (tracks : Tracks) (read : List Sample) (f : Text)
    → first_color tracks ≡ some f
    → first_of tracks read ≡ some f
unfolding or_else
first_of-eq-some tracks [] f e = e
first_of-eq-some tracks (s ∷ read) f e = rw e refl

-- Nothing more has to be read.
pub IsOrdered-done :
    (R : ℕ → ℕ → Type 0) (n : ℕ) (tracks : Tracks) (samples : List Sample)
    → max_samples_read ≤ n
    → IsOrdered R n tracks samples
IsOrdered-done R n tracks samples h = record {
  read = [];
  rest = samples;
  split = refl;
  linked = λ c. tt;
  counted = λ c e. omega arith;
  nonempty = λ e. h;
}

module _ (advance : ℕ → ℕ → Option ℕ) (R : ℕ → ℕ → Type 0) (d : Decides advance R) where
  module _ {s : Sample} {tracks tracks' : Tracks} (v : Visited advance R d s tracks tracks') where
    -- A sample that is not counted, and one that is.
    pub IsOrdered-visit :
        (n : ℕ) (samples : List Sample)
        → IsOrdered R n tracks' samples
        → IsOrdered R n tracks (s ∷ samples)
    IsOrdered-visit n samples o = record {
      read = s ∷ o.read;
      rest = o.rest;
      split = ap (λ l. s ∷ l) o.split;
      linked = λ c. Linked-visit advance R d v c o.read (o.linked c);
      counted = λ c e. ground (arith, o.counted c (first_of-visit advance R d v o.read ∙ e));
      nonempty = λ e. absurd (or_else-some (first_color tracks) s.color e);
    }

    pub IsOrdered-count :
        (n : ℕ) (samples : List Sample)
        → is_first (some s) (first_color tracks') ≡ returned true
        → IsOrdered R (n + 1) tracks' samples
        → IsOrdered R n tracks (s ∷ samples)
    IsOrdered-count n samples e o = record {
      read = s ∷ o.read;
      rest = o.rest;
      split = ap (λ l. s ∷ l) o.split;
      linked = λ c. Linked-visit advance R d v c o.read (o.linked c);
      counted = λ c e'.
          let (f, hit, same) = is_first-eq-true s (first_color tracks') e in
          let shown : first_of tracks' o.read ≡ some c = first_of-visit advance R d v o.read ∙ e' in
          let alike : f ≡ c = some_inj (sym (first_of-eq-some tracks' o.read f hit) ∙ shown) in
          let here : text_eq s.color c ≡ true = rw alike at same in
          rw here (omega (arith, o.counted c shown));
      nonempty = λ e'. absurd (or_else-some (first_color tracks) s.color e');
    }

    pub IsBroken-visit :
        (samples : List Sample) → IsBroken R tracks' samples → IsBroken R tracks (s ∷ samples)
    IsBroken-visit samples b = record {
      read = s ∷ b.read;
      rest = b.rest;
      split = ap (λ l. s ∷ l) b.split;
      color = b.color;
      broken = λ l. b.broken (Linked-unvisit advance R d v b.color b.read l);
    }

  pub IsBroken-now :
      (s : Sample) (tracks : Tracks) (samples : List Sample)
      → ¬ Follows R (last_size tracks s.color) s.size
      → IsBroken R tracks (s ∷ samples)
  IsBroken-now s tracks samples h = record {
    read = s ∷ [];
    rest = samples;
    split = refl;
    color = s.color;
    broken = λ l.
        h
          (Linked-tail R (last_size tracks s.color) s.size []
            (rw ((text_eq_iff _ _).1 refl) at l)).0;
  }
