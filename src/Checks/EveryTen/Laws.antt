-- ===== src/Checks/EveryTen/Laws.antt =====
-- What the time-based filter check guarantees, and a sample too early that it lets pass.
-- The samples that were missed between sizes.
use dds_rtps.Prelude.{
  ℕ, Bool, Bool-cases, List, Option, Text, [], arith, false, inl, inr, length, ltb, none, refl,
  some, ◌++◌, ◌+◌, ◌-◌, ◌∷◌, ◌≡◌, ◌≢◌, ◌≤◌, ◌⊎◌,
}
use dds_rtps.ReturnCode.{ReturnCode, data_not_correct, data_not_received, ok}
use dds_rtps.Checks.EveryTen.{
  Pace, enough_samples, max_samples_received, missed_in_gap, missed_tolerance, new_pace, pace_loop,
  pace_round, pace_step, pace_verdict, test_reading_1_sample_every_10_samples_w_instances,
}
use dds_rtps.Checks.Instances.{Seen}
use dds_rtps.Checks.Instances.Laws.{steps}
use dds_rtps.Checks.Instances.Runs.{
  Shown, Shown-Accepts, Shown-count, Shown-done, Shown-visit, observe-eq-some,
}
use dds_rtps.Checks.Ordering.Rounds.{count_sample-eq-returned, is_first-ne-true}
use dds_rtps.Checks.Ordering.Trace.{Linked, printed, sizes_of}
use dds_rtps.Child.{Feed, Outcome, eof, found, returned, timeout}
use dds_rtps.Samples.{Sample, basic_check, search_sample}
use dds_rtps.Samples.Laws.{checked-eq-ok}

abbrev pub lost_from : ℕ → List ℕ → ℕ
lost_from y [] = 0
lost_from y (z ∷ zs) = missed_in_gap (z - y) + lost_from z zs

-- From the second size on each is at least 9 more than the one before, and at most 5 samples are
-- missed in the gaps between them.
abbrev pub IsSpaced : List ℕ → Type 0
IsSpaced [] = Unit
IsSpaced (x ∷ []) = Unit
IsSpaced (x ∷ y ∷ ys) = Linked (λ a b. a + 9 ≤ b) (some y) ys × (lost_from y ys ≤ missed_tolerance)

-- The pace of an instance behind its second sample.
abbrev settled_pace : ℕ → ℕ → Pace
settled_pace y missed = record {
  seq_num = y;
  first_iteration = false;
  ignore_first_sample = false;
  missed_samples = missed;
}

steps-settled :
    (y missed : ℕ) (zs : List ℕ)
    → missed ≤ missed_tolerance
    → steps new_pace pace_step (some (settled_pace y missed)) zs ≢ none
    → Linked (λ a b. a + 9 ≤ b) (some y) zs × (missed + lost_from y zs ≤ missed_tolerance)
unfolding pace_step
steps-settled y missed [] h e = (tt, omega arith)
steps-settled y missed (z ∷ zs) h e =
    ground (arith, steps-settled z (missed + missed_in_gap (z - y)) zs)

steps-IsSpaced : (sizes : List ℕ) → steps new_pace pace_step none sizes ≢ none → IsSpaced sizes
unfolding pace_step
steps-IsSpaced [] e = tt
steps-IsSpaced (x ∷ []) e = tt
steps-IsSpaced (x ∷ y ∷ zs) e =
    let (linked, few) = steps-settled y 0 zs (omega arith) e in (linked, omega arith)

pace_round-eq-ok :
    (n : ℕ) (o : Option (Seen Pace × Bool)) (more : Seen Pace → Outcome ReturnCode)
    → pace_round n o more ≡ returned ok
    → (enough_samples ≤ n)
      ⊎ ((t : Seen Pace) × (b : Bool) × (o ≡ some (t, b)) × (more t ≡ returned ok))
unfolding pace_round pace_verdict
pace_round-eq-ok n none more e = inl (ground arith)
pace_round-eq-ok n (some (t, b)) more e = elim (Bool-cases (ltb n max_samples_received)) [
  | inl more_to_read ↦ inr (t, b, refl, rw more_to_read at e)
  | inr enough ↦ inl (ground arith)
]

pace_round-silent :
    (n : ℕ) (o : Option (Seen Pace × Bool)) (more : Outcome ReturnCode)
    → (more ≡ returned ok → enough_samples ≤ n)
    → pace_round n o (λ _. more) ≡ returned ok
    → enough_samples ≤ n
pace_round-silent n o more h e = elim (pace_round-eq-ok n o _ e) [
  | inl enough ↦ enough
  | inr (t, b, seen, later) ↦ h later
]

verdict-eq-ok : (n : ℕ) → pace_verdict n data_not_received ≡ returned ok → enough_samples ≤ n
unfolding pace_verdict
verdict-eq-ok n e = ground arith

pace_loop-Shown :
    (seen : Seen Pace) (n : ℕ) (text : Text) (feed : Feed)
    → pace_loop seen n text feed ≡ returned ok
    → Shown new_pace pace_step enough_samples n seen (printed text feed)
unfolding pace_loop
pace_loop-Shown seen n text [] e =
    Shown-done new_pace pace_step enough_samples n seen _ (pace_round-silent n _ _ (λ p. cc p) e)
pace_loop-Shown seen n text (timeout ∷ feed) e =
    Shown-done new_pace pace_step enough_samples n seen _
      (pace_round-silent n _ _ (verdict-eq-ok n) e)
pace_loop-Shown seen n text (eof ∷ feed) e =
    Shown-done new_pace pace_step enough_samples n seen _ (pace_round-silent n _ _ (λ p. cc p) e)
pace_loop-Shown seen n text (found i text' ∷ feed) e = elim (pace_round-eq-ok n _ _ e) [
  | inl enough ↦ Shown-done new_pace pace_step enough_samples n seen _ enough
  | inr (t, b, observed, later) ↦
      elim (observe-eq-some new_pace pace_step (search_sample text) seen t b observed) [
        | inl (blank, same, _) ↦ rw blank (elim (count_sample-eq-returned i _ n _ later) [
          | inl on ↦ pace_loop-Shown seen n text' feed (rw (← same) at on)
          | inr (counted, _) ↦ absurd (is_first-ne-true _ (rw blank at counted))
        ])
        | inr (s, shown, v) ↦ rw shown (elim (count_sample-eq-returned i _ n _ later) [
          | inl on ↦
              Shown-visit new_pace pace_step v enough_samples n _
                (pace_loop-Shown t n text' feed on)
          | inr (counted, on) ↦
              Shown-count new_pace pace_step v enough_samples n _ (rw shown at counted)
                (pace_loop-Shown t (n + 1) text' feed on)
        ])
      ]
]

-- The samples that a run printed begin with a part in which every instance keeps its pace, and the
-- first one has 45 samples at least.
pub record KeepsPace (samples : List Sample) : Type 0 where
  pub head : Sample
  pub read : List Sample
  pub rest : List Sample
  pub split : samples ≡ (head ∷ read) ++ rest
  pub spaced : (c : Text) → IsSpaced (sizes_of c (head ∷ read))
  pub counted : enough_samples ≤ length (sizes_of head.color (head ∷ read))

-- The check of the time-based filter returns OK only if the samples printed before the first
-- TIMEOUT or EOF begin with a part in which, for each instance, every size behind the second is at
-- least 9 more than the one before, at most 5 samples are missed in the gaps, and the first instance
-- has at least 45 samples.
pub every_10-KeepsPace :
    (text : Text) (feed : Feed)
    → test_reading_1_sample_every_10_samples_w_instances text feed ≡ returned ok
    → KeepsPace (printed text feed)
unfolding test_reading_1_sample_every_10_samples_w_instances
every_10-KeepsPace text feed e =
    let (_, run) = checked-eq-ok (basic_check text) (pace_loop [] 0 text feed) e in
    let a =
      Shown-Accepts new_pace pace_step enough_samples _ (omega arith)
        (pace_loop-Shown [] 0 text feed run) in
    record {
      head = a.head;
      read = a.read;
      rest = a.rest;
      split = a.split;
      spaced = λ c. steps-IsSpaced _ (a.accepted c);
      counted = a.counted;
    }

pace_round-eq-not_correct :
    (n : ℕ) (o : Option (Seen Pace × Bool)) (more : Seen Pace → Outcome ReturnCode)
    → enough_samples ≤ n
    → pace_round n o more ≡ returned data_not_correct
    → (t : Seen Pace) × (more t ≡ returned data_not_correct)
unfolding pace_round pace_verdict
pace_round-eq-not_correct n none more h e = ground arith
pace_round-eq-not_correct n (some (t, b)) more h e =
    elim (Bool-cases (ltb n max_samples_received)) [
      | inl more_to_read ↦ (t, rw more_to_read at e)
      | inr enough ↦ ground arith
    ]

-- Once 45 samples of the first instance are counted, the loop of the time-based filter check never
-- ends with DATA_NOT_CORRECT, whatever sizes follow: the code that a sample too early sets is
-- replaced by OK behind the loop.
pub pace_loop-ne-not_correct :
    (seen : Seen Pace) (n : ℕ) (text : Text) (feed : Feed)
    → enough_samples ≤ n
    → pace_loop seen n text feed ≢ returned data_not_correct
unfolding pace_loop pace_verdict
pace_loop-ne-not_correct seen n text [] h e =
    let (t, later) = pace_round-eq-not_correct n _ _ h e in cc later
pace_loop-ne-not_correct seen n text (timeout ∷ feed) h e =
    let (t, later) = pace_round-eq-not_correct n _ _ h e in ground arith
pace_loop-ne-not_correct seen n text (eof ∷ feed) h e =
    let (t, later) = pace_round-eq-not_correct n _ _ h e in cc later
pace_loop-ne-not_correct seen n text (found i text' ∷ feed) h e =
    let (t, later) = pace_round-eq-not_correct n _ _ h e in
    elim (count_sample-eq-returned i _ n _ later) [
      | inl on ↦ pace_loop-ne-not_correct t n text' feed h on
      | inr (counted, on) ↦ pace_loop-ne-not_correct t (n + 1) text' feed (omega arith) on
    ]
