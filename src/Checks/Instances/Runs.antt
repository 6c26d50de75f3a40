-- ===== src/Checks/Instances/Runs.antt =====
-- What a loop over the printed samples has shown when it has counted enough samples of the first
-- instance: a first part of the samples in which no instance refuses a step.
use dds_rtps.Prelude.{
  ℕ, Bool, List, Option, Text, [], ap, arith, false, inl, inr, length, none, or_else, or_else-some,
  refl, some, some_inj, sym, text_eq, true, ◌++◌, ◌+◌, ◌<◌, ◌∙◌, ◌∷◌, ◌≡◌, ◌≢◌, ◌≤◌, ◌⊎◌,
}
use dds_rtps.Checks.Instances.{Seen, observe_instance}
use dds_rtps.Checks.Instances.Laws.{
  Moved, first_of_seen, first_of_seen-Moved, steps, steps-Moved, visit-Moved,
}
use dds_rtps.Checks.Ordering.{is_first}
use dds_rtps.Checks.Ordering.Rounds.{is_first-eq-true}
use dds_rtps.Checks.Ordering.Trace.{sizes_of}
use dds_rtps.Checks.Table.{find, first_color}
use dds_rtps.Child.{returned}
use dds_rtps.Samples.{Sample}

module _ {P : Type 0} (start : ℕ → P) (step : P → ℕ → Option (P × Bool)) where
  pub record Shown (limit n : ℕ) (seen : Seen P) (samples : List Sample) : Type 0 where
    pub read : List Sample
    pub rest : List Sample
    pub split : samples ≡ read ++ rest
    pub accepted : (c : Text) → steps start step (find c seen) (sizes_of c read) ≢ none
    pub counted :
        (c : Text)
        → first_of_seen start step seen read ≡ some c
        → limit ≤ n + length (sizes_of c read)
    pub nonempty : first_of_seen start step seen read ≡ none → limit ≤ n

  pub Shown-done :
      (limit n : ℕ) (seen : Seen P) (samples : List Sample) → limit ≤ n → Shown limit n seen samples
  Shown-done limit n seen samples h = record {
    read = [];
    rest = samples;
    split = refl;
    accepted = λ c e. cc e;
    counted = λ c e. omega arith;
    nonempty = λ e. h;
  }

  pub first_of_seen-eq-some :
      (seen : Seen P) (read : List Sample) (f : Text)
      → first_color seen ≡ some f
      → first_of_seen start step seen read ≡ some f
  unfolding or_else
  first_of_seen-eq-some seen [] f e = e
  first_of_seen-eq-some seen (s ∷ read) f e = rw e refl

  module _ {s : Sample} {seen seen' : Seen P} {noticed : Bool}
      (v : Moved start step s seen seen' noticed) where
    pub Shown-visit :
        (limit n : ℕ) (samples : List Sample)
        → Shown limit n seen' samples
        → Shown limit n seen (s ∷ samples)
    Shown-visit limit n samples o = record {
      read = s ∷ o.read;
      rest = o.rest;
      split = ap (λ l. s ∷ l) o.split;
      accepted = λ c e. o.accepted c (sym (steps-Moved start step v c o.read) ∙ e);
      counted = λ c e. ground (arith, o.counted c (first_of_seen-Moved start step v o.read ∙ e));
      nonempty = λ e. absurd (or_else-some (first_color seen) s.color e);
    }

    pub Shown-count :
        (limit n : ℕ) (samples : List Sample)
        → is_first (some s) (first_color seen') ≡ returned true
        → Shown limit (n + 1) seen' samples
        → Shown limit n seen (s ∷ samples)
    Shown-count limit n samples e o = record {
      read = s ∷ o.read;
      rest = o.rest;
      split = ap (λ l. s ∷ l) o.split;
      accepted = λ c e'. o.accepted c (sym (steps-Moved start step v c o.read) ∙ e');
      counted = λ c e'.
          let (f, hit, same) = is_first-eq-true s (first_color seen') e in
          let shown : first_of_seen start step seen' o.read ≡ some c =
            first_of_seen-Moved start step v o.read ∙ e' in
          let alike : f ≡ c = some_inj (sym (first_of_seen-eq-some seen' o.read f hit) ∙ shown) in
          let here : text_eq s.color c ≡ true = rw alike at same in
          rw here (omega (arith, o.counted c shown));
      nonempty = λ e'. absurd (or_else-some (first_color seen) s.color e');
    }

  -- The samples that a reply is preceded by: none, or one that every instance accepted.
  pub observe-eq-some :
      (o : Option Sample) (seen seen' : Seen P) (noticed : Bool)
      → observe_instance start step o seen ≡ some (seen', noticed)
      → ((o ≡ none) × (seen ≡ seen') × (noticed ≡ false))
        ⊎ ((s : Sample) × (o ≡ some s) × Moved start step s seen seen' noticed)
  unfolding observe_instance
  observe-eq-some none seen seen' noticed e =
      let e' : (seen, false) ≡ (seen', noticed) = some_inj e in
      inl (refl, ap (λ p. p.0) e', sym (ap (λ p. p.1) e'))
  observe-eq-some (some s) seen seen' noticed e =
      inr (s, refl, visit-Moved start step s seen seen' noticed e)

  -- From empty lists: the first sample is of the first instance, and each instance starts anew.
  pub record Accepts (limit : ℕ) (samples : List Sample) : Type 0 where
    pub head : Sample
    pub read : List Sample
    pub rest : List Sample
    pub split : samples ≡ (head ∷ read) ++ rest
    pub accepted : (c : Text) → steps start step none (sizes_of c (head ∷ read)) ≢ none
    pub counted : limit ≤ length (sizes_of head.color (head ∷ read))

  pub Shown-Accepts :
      (limit : ℕ) (samples : List Sample)
      → 0 < limit
      → Shown limit 0 [] samples
      → Accepts limit samples
  unfolding find or_else
  Shown-Accepts limit samples h o = from_read o.read o.split o.accepted o.counted o.nonempty
    where
      from_read :
          (read : List Sample)
          → samples ≡ read ++ o.rest
          → ((c : Text) → steps start step none (sizes_of c read) ≢ none)
          → ((c : Text)
              → first_of_seen start step [] read ≡ some c
              → limit ≤ 0 + length (sizes_of c read))
          → (first_of_seen start step [] read ≡ none → limit ≤ 0)
          → Accepts limit samples
      from_read [] split accepted counted nonempty = absurd (omega (arith, nonempty refl))
      from_read (s ∷ read) split accepted counted nonempty = record {
        head = s;
        read = read;
        rest = o.rest;
        split = split;
        accepted = accepted;
        counted = omega (arith, counted s.color refl);
      }
