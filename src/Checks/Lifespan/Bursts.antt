-- ===== src/Checks/Lifespan/Bursts.antt =====
-- The bursts of consecutive sizes in a list, and the steps of the lifespan check.
-- The lengths of the bursts that have ended, after `count` consecutive sizes up to `previous`.
use dds_rtps.Prelude.{
  ℕ, All, Bool, List, [], arith, false, if◌then◌else◌, inr, none, some, true, ◌+◌, ◌==◌, ◌∷◌, ◌≡◌,
  ◌≢◌, ◌⊎◌,
}
use dds_rtps.Checks.Instances.Laws.{notices, steps}
use dds_rtps.Checks.Lifespan.{Burst, burst_step, new_burst}

abbrev pub bursts_from : ℕ → ℕ → List ℕ → List ℕ
bursts_from previous count [] = []
bursts_from previous count (x ∷ xs) =
    if previous + 1 == x then bursts_from x (count + 1) xs else count ∷ bursts_from x 1 xs

abbrev pub ended_bursts : List ℕ → List ℕ
ended_bursts [] = []
ended_bursts (x ∷ xs) = bursts_from x 1 xs

abbrev pub IsTwoOrThree : ℕ → Type 0
IsTwoOrThree k = (k ≡ 2) ⊎ (k ≡ 3)

-- Each burst has two or three samples, but for a single one at the front.
abbrev pub AreInTime : List ℕ → Type 0
AreInTime [] = Unit
AreInTime (k ∷ ks) = ((k ≡ 1) ⊎ IsTwoOrThree k) × All IsTwoOrThree ks

-- Some burst has two or three samples.
abbrev pub HasExpired : List ℕ → Type 0
HasExpired [] = ⊥
HasExpired (k ∷ ks) = IsTwoOrThree k ⊎ HasExpired ks

abbrev burst_after : ℕ → ℕ → Bool → Burst
burst_after previous count ignore = record {
  previous_seq_num = previous;
  first_iteration = false;
  consecutive_samples = count;
  ignore_first_sample = ignore;
}

steps-All :
    (previous count : ℕ) (xs : List ℕ)
    → steps new_burst burst_step (some (burst_after previous count false)) xs ≢ none
    → All IsTwoOrThree (bursts_from previous count xs)
unfolding burst_step
steps-All previous count [] h = tt
steps-All previous count (x ∷ xs) h = ground (arith, steps-All x (count + 1) xs, steps-All x 1 xs)

All-AreInTime : (ks : List ℕ) → All IsTwoOrThree ks → AreInTime ks
All-AreInTime [] h = tt
All-AreInTime (k ∷ ks) (h, hs) = (inr h, hs)

steps-AreInTime_from :
    (previous : ℕ) (xs : List ℕ)
    → steps new_burst burst_step (some (burst_after previous 1 true)) xs ≢ none
    → AreInTime (bursts_from previous 1 xs)
unfolding burst_step
steps-AreInTime_from previous [] h = tt
steps-AreInTime_from previous (x ∷ xs) h =
    ground (arith, steps-All x 2 xs, steps-All x 1 xs, All-AreInTime (bursts_from x 2 xs))

pub steps-AreInTime :
    (sizes : List ℕ) → steps new_burst burst_step none sizes ≢ none → AreInTime (ended_bursts sizes)
unfolding burst_step
steps-AreInTime [] h = tt
steps-AreInTime (x ∷ xs) h = steps-AreInTime_from x xs h

-- A step notices the end of a burst of two or three.
notices-HasExpired_later :
    (previous count : ℕ) (xs : List ℕ)
    → notices new_burst burst_step (some (burst_after previous count false)) xs ≡ true
    → HasExpired (bursts_from previous count xs)
unfolding burst_step
notices-HasExpired_later previous count [] h = cc h
notices-HasExpired_later previous count (x ∷ xs) h =
    ground (arith, notices-HasExpired_later x (count + 1) xs, notices-HasExpired_later x 1 xs)

notices-HasExpired_first :
    (previous : ℕ) (xs : List ℕ)
    → notices new_burst burst_step (some (burst_after previous 1 true)) xs ≡ true
    → HasExpired (bursts_from previous 1 xs)
unfolding burst_step
notices-HasExpired_first previous [] h = cc h
notices-HasExpired_first previous (x ∷ xs) h =
    ground (arith, notices-HasExpired_later x 2 xs, notices-HasExpired_later x 1 xs)

pub notices-HasExpired :
    (sizes : List ℕ)
    → notices new_burst burst_step none sizes ≡ true
    → HasExpired (ended_bursts sizes)
unfolding burst_step
notices-HasExpired [] h = cc h
notices-HasExpired (x ∷ xs) h = notices-HasExpired_first x xs h
