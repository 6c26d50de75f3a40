-- ===== src/Checks/Lifespan/Laws.antt =====
-- What the lifespan check guarantees.
-- What a run of the loop that ends with OK has shown: a first part of the samples in which no
-- instance refuses a step and one notices the end of a burst, if none was noticed before.
use dds_rtps.Prelude.{
  ℕ, Bool, Bool-cases, List, Option, Text, [], ap, arith, false, if◌then◌else◌, inl, inr, ltb, none,
  refl, some, subst, sym, text_eq, text_eq_iff, true, ◌++◌, ◌+◌, ◌||◌, ◌∙◌, ◌∷◌, ◌≡◌, ◌≢◌, ◌≤◌, ◌⊎◌,
}
use dds_rtps.ReturnCode.{ReturnCode, ok}
use dds_rtps.Checks.Instances.{Seen, observe_instance}
use dds_rtps.Checks.Instances.Laws.{Moved, notices, notices-Moved, steps, steps-Moved}
use dds_rtps.Checks.Instances.Runs.{observe-eq-some}
use dds_rtps.Checks.Lifespan.{
  Burst, burst_loop, burst_round, burst_step, max_samples_lifespan, new_burst,
  test_lifespan_2_3_consecutive_samples_w_instances,
}
use dds_rtps.Checks.Lifespan.Bursts.{
  AreInTime, HasExpired, ended_bursts, notices-HasExpired, steps-AreInTime,
}
use dds_rtps.Checks.Lifespan.Enough.{
  IsEnough, IsEnough-IsFull, IsEnough-count, IsEnough-visit, IsFull,
}
use dds_rtps.Checks.Ordering.{count_sample, is_first}
use dds_rtps.Checks.Ordering.Rounds.{count_sample-eq-returned, is_first-ne-true}
use dds_rtps.Checks.Ordering.Trace.{printed, sizes_of, with_sample}
use dds_rtps.Checks.Table.{find}
use dds_rtps.Child.{Feed, Outcome, eof, found, returned, timeout}
use dds_rtps.Samples.{Sample, basic_check, search_sample}
use dds_rtps.Samples.Laws.{checked-eq-ok}

record Watched (n : ℕ) (expired : Bool) (seen : Seen Burst) (samples : List Sample) : Type 0 where
  read : List Sample
  rest : List Sample
  split : samples ≡ read ++ rest
  accepted : (c : Text) → steps new_burst burst_step (find c seen) (sizes_of c read) ≢ none
  enough : IsEnough n seen read rest
  color : Text
  noticed : expired || notices new_burst burst_step (find color seen) (sizes_of color read) ≡ true

Watched-done :
    (n : ℕ) (seen : Seen Burst) (samples : List Sample)
    → (samples ≡ []) ⊎ (max_samples_lifespan ≤ n)
    → Watched n true seen samples
Watched-done n seen samples h = record {
  read = [];
  rest = samples;
  split = refl;
  accepted = λ c e. cc e;
  enough = elim h [ inl all ↦ inl all | inr plenty ↦ inr (λ c e. omega (arith, plenty)) ];
  color = [];
  noticed = refl;
}

Watched-visit :
    {s : Sample} {seen seen' : Seen Burst} {noticed : Bool}
    → Moved new_burst burst_step s seen seen' noticed
    → (m n : ℕ)
    → ((read rest : List Sample) → IsEnough m seen' read rest → IsEnough n seen (s ∷ read) rest)
    → (expired : Bool) (samples : List Sample) → Watched m (expired || noticed) seen' samples
    → Watched n expired seen (s ∷ samples)
Watched-visit {s} {seen} {seen'} {noticed} v m n h true samples w = record {
  read = s ∷ w.read;
  rest = w.rest;
  split = ap (λ l. s ∷ l) w.split;
  accepted = λ c e. w.accepted c (sym (steps-Moved new_burst burst_step v c w.read) ∙ e);
  enough = h w.read w.rest w.enough;
  color = w.color;
  noticed = refl;
}
Watched-visit {s} {seen} {seen'} {noticed = true} v m n h false samples w = record {
  read = s ∷ w.read;
  rest = w.rest;
  split = ap (λ l. s ∷ l) w.split;
  accepted = λ c e. w.accepted c (sym (steps-Moved new_burst burst_step v c w.read) ∙ e);
  enough = h w.read w.rest w.enough;
  color = s.color;
  noticed =
      notices-Moved new_burst burst_step v s.color w.read ∙ rw ((text_eq_iff _ _).1 refl) refl;
}
Watched-visit {s} {seen} {seen'} {noticed = false} v m n h false samples w = record {
  read = s ∷ w.read;
  rest = w.rest;
  split = ap (λ l. s ∷ l) w.split;
  accepted = λ c e. w.accepted c (sym (steps-Moved new_burst burst_step v c w.read) ∙ e);
  enough = h w.read w.rest w.enough;
  color = w.color;
  noticed = notices-Moved new_burst burst_step v w.color w.read ∙ either (text_eq s.color w.color);
}
  where
    either :
        (b : Bool)
        → (if b
            then notices new_burst burst_step (find w.color seen') (sizes_of w.color w.read)
            else notices new_burst burst_step (find w.color seen') (sizes_of w.color w.read))
          ≡ true
    either true = w.noticed
    either false = w.noticed

burst_round-eq-ok :
    (n : ℕ) (expired : Bool) (o : Option (Seen Burst × Bool))
    (more : Seen Burst → Bool → Outcome ReturnCode)
    → burst_round n expired o more ≡ returned ok
    → ((expired ≡ true) × (max_samples_lifespan ≤ n))
      ⊎ ((t : Seen Burst) × (b : Bool) × (o ≡ some (t, b)) × (more t (expired || b) ≡ returned ok))
unfolding burst_round
burst_round-eq-ok n expired none more e = inl (ground arith, ground arith)
burst_round-eq-ok n expired (some (t, b)) more e = elim (Bool-cases (ltb n max_samples_lifespan)) [
  | inl more_to_read ↦ inr (t, b, refl, rw more_to_read at e)
  | inr enough ↦ inl (ground arith, ground arith)
]

or-false : (a b : Bool) → b ≡ false → (a || b) ≡ a
or-false true b e = refl
or-false false b e = e

not_counted :
    (i : ℕ) (o : Option Sample) (first : Option Text) (n : ℕ) (more : ℕ → Outcome ReturnCode)
    {r : ReturnCode}
    → o ≡ none
    → count_sample i (is_first o first) n more ≡ returned r
    → more n ≡ returned r
not_counted i o first n more blank e =
    elim (count_sample-eq-returned i (is_first o first) n more e) [
      | inl on ↦ on
      | inr (counted, on) ↦ absurd (is_first-ne-true first (rw blank at counted))
    ]

-- A run that ends after a TIMEOUT.
Watched-observed :
    (n : ℕ) (o : Option Sample) (seen t : Seen Burst) (expired b : Bool)
    → observe_instance new_burst burst_step o seen ≡ some (t, b)
    → (expired || b) ≡ true
    → Watched n expired seen (with_sample o [])
Watched-observed n o seen t expired b observed e =
    elim (observe-eq-some new_burst burst_step o seen t b observed) [
      | inl (blank, _, silent) ↦
          let before : expired ≡ true = ground arith in
          rw (before, blank) (Watched-done n seen [] (inl refl))
      | inr (s, shown, v) ↦ rw shown (
          Watched-visit v n n (IsEnough-visit v n) expired []
            (rw e (Watched-done n t [] (inl refl))))
    ]

burst_loop-Watched :
    (seen : Seen Burst) (n : ℕ) (expired : Bool) (text : Text) (feed : Feed)
    → burst_loop seen n expired text feed ≡ returned ok
    → Watched n expired seen (printed text feed)
unfolding burst_loop
burst_loop-Watched seen n expired text [] e = elim (burst_round-eq-ok n expired _ _ e) [
  | inl (before, plenty) ↦ rw before (Watched-done n seen _ (inr plenty))
  | inr (t, b, observed, later) ↦ cc later
]
burst_loop-Watched seen n expired text (eof ∷ feed) e = elim (burst_round-eq-ok n expired _ _ e) [
  | inl (before, plenty) ↦ rw before (Watched-done n seen _ (inr plenty))
  | inr (t, b, observed, later) ↦ cc later
]
burst_loop-Watched seen n expired text (timeout ∷ feed) e =
    elim (burst_round-eq-ok n expired _ _ e) [
      | inl (before, plenty) ↦ rw before (Watched-done n seen _ (inr plenty))
      | inr (t, b, observed, later) ↦
          Watched-observed n (search_sample text) seen t expired b observed (ground arith)
    ]
burst_loop-Watched seen n expired text (found i text' ∷ feed) e =
    elim (burst_round-eq-ok n expired _ _ e) [
      | inl (before, plenty) ↦ rw before (Watched-done n seen _ (inr plenty))
      | inr (t, b, observed, later) ↦
          elim (observe-eq-some new_burst burst_step (search_sample text) seen t b observed) [
            | inl (blank, same, silent) ↦
                let w =
                  burst_loop-Watched t n (expired || b) text' feed
                    (not_counted i _ _ n _ blank later) in
                rw (blank, same)
                  (subst (λ x. Watched n x t (printed text' feed)) (or-false expired b silent) w)
            | inr (s, shown, v) ↦ rw shown (elim (count_sample-eq-returned i _ n _ later) [
              | inl on ↦
                  Watched-visit v n n (IsEnough-visit v n) expired _
                    (burst_loop-Watched t n (expired || b) text' feed on)
              | inr (counted, on) ↦
                  Watched-visit v (n + 1) n
                    (λ read rest. IsEnough-count v n read rest (rw shown at counted)) expired _
                    (burst_loop-Watched t (n + 1) (expired || b) text' feed on)
            ])
          ]
    ]

-- A first part of the samples that a run printed, all of them or at least 50 of the first instance, in
-- which every instance's samples arrive in time, and a burst of some instance has ended.
pub record ExpiresInTime (samples : List Sample) : Type 0 where
  pub read : List Sample
  pub rest : List Sample
  pub split : samples ≡ read ++ rest
  pub in_time : (c : Text) → AreInTime (ended_bursts (sizes_of c read))
  pub enough : IsFull read rest
  pub color : Text
  pub expired : HasExpired (ended_bursts (sizes_of color read))

-- The lifespan check returns OK only if the samples printed before the first TIMEOUT or EOF begin
-- with a part, which has all of them or at least 50 of the first instance, in which, for each instance, every burst of consecutive sizes that has ended has two or
-- three samples, but for a first one of a single sample, and in which at least one burst of two or
-- three samples has ended.
pub lifespan-ExpiresInTime :
    (text : Text) (feed : Feed)
    → test_lifespan_2_3_consecutive_samples_w_instances text feed ≡ returned ok
    → ExpiresInTime (printed text feed)
unfolding test_lifespan_2_3_consecutive_samples_w_instances find
lifespan-ExpiresInTime text feed e =
    let (_, run) = checked-eq-ok (basic_check text) (burst_loop [] 0 false text feed) e in
    let w = burst_loop-Watched [] 0 false text feed run in
    record {
      read = w.read;
      rest = w.rest;
      split = w.split;
      in_time = λ c. steps-AreInTime (sizes_of c w.read) (w.accepted c);
      enough = IsEnough-IsFull w.read w.rest w.enough;
      color = w.color;
      expired = notices-HasExpired (sizes_of w.color w.read) w.noticed;
    }
