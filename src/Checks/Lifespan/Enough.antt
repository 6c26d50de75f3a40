-- ===== src/Checks/Lifespan/Enough.antt =====
-- How many samples the lifespan check has read where it ends with OK.
-- A first part that has all samples, or enough of the first instance for the loop to end.
use dds_rtps.Prelude.{
  ℕ, Bool, List, Option, Text, [], arith, inl, inr, length, none, or_else, refl, some, some_inj,
  sym, text_eq, true, ◌+◌, ◌∙◌, ◌∷◌, ◌≡◌, ◌≤◌, ◌⊎◌,
}
use dds_rtps.Checks.Instances.{Seen}
use dds_rtps.Checks.Instances.Laws.{Moved, first_of_seen, first_of_seen-Moved}
use dds_rtps.Checks.Instances.Runs.{first_of_seen-eq-some}
use dds_rtps.Checks.Lifespan.{Burst, burst_step, max_samples_lifespan, new_burst}
use dds_rtps.Checks.Ordering.{is_first}
use dds_rtps.Checks.Ordering.Rounds.{is_first-eq-true}
use dds_rtps.Checks.Ordering.Trace.{sizes_of}
use dds_rtps.Checks.Table.{first_color}
use dds_rtps.Child.{returned}
use dds_rtps.Samples.{Sample}

abbrev pub IsEnough : ℕ → Seen Burst → List Sample → List Sample → Type 0
IsEnough n seen read rest =
    (rest ≡ [])
    ⊎ ((c : Text)
        → first_of_seen new_burst burst_step seen read ≡ some c
        → max_samples_lifespan ≤ n + length (sizes_of c read))

module _ {s : Sample} {seen seen' : Seen Burst} {noticed : Bool}
    (v : Moved new_burst burst_step s seen seen' noticed) where
  pub IsEnough-visit :
      (n : ℕ) (read rest : List Sample)
      → IsEnough n seen' read rest
      → IsEnough n seen (s ∷ read) rest
  IsEnough-visit n read rest (inl all) = inl all
  IsEnough-visit n read rest (inr plenty) =
      inr (λ c e. ground (arith, plenty c (first_of_seen-Moved new_burst burst_step v read ∙ e)))

  pub IsEnough-count :
      (n : ℕ) (read rest : List Sample)
      → is_first (some s) (first_color seen') ≡ returned true
      → IsEnough (n + 1) seen' read rest
      → IsEnough n seen (s ∷ read) rest
  IsEnough-count n read rest counted (inl all) = inl all
  IsEnough-count n read rest counted (inr plenty) = inr (λ c e.
      let (f, hit, same) = is_first-eq-true s (first_color seen') counted in
      let shown : first_of_seen new_burst burst_step seen' read ≡ some c =
        first_of_seen-Moved new_burst burst_step v read ∙ e in
      let alike : f ≡ c =
        some_inj (sym (first_of_seen-eq-some new_burst burst_step seen' read f hit) ∙ shown) in
      let here : text_eq s.color c ≡ true = rw alike at same in
      rw here (omega (arith, plenty c shown)))

-- The color of the first sample
abbrev first_of : List Sample → Option Text
first_of [] = none
first_of (s ∷ samples) = some s.color

first_of_seen-first_of :
    (read : List Sample) → first_of_seen new_burst burst_step [] read ≡ first_of read
unfolding or_else
first_of_seen-first_of [] = refl
first_of_seen-first_of (s ∷ read) = refl

-- A part with all samples, or at least 50 of the first instance
abbrev pub IsFull : List Sample → List Sample → Type 0
IsFull read rest =
    (rest ≡ []) ⊎ ((c : Text) → first_of read ≡ some c → 50 ≤ length (sizes_of c read))

pub IsEnough-IsFull : (read rest : List Sample) → IsEnough 0 [] read rest → IsFull read rest
IsEnough-IsFull read rest (inl all) = inl all
IsEnough-IsFull read rest (inr plenty) =
    inr (λ c e. omega (arith, plenty c (first_of_seen-first_of read ∙ e)))
