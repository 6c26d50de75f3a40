-- ===== src/Checks/Ordering/Rounds.antt =====
-- Inversion of one round of the loop of the order checks.
use dds_rtps.Prelude.{
  ℕ, Bool, Bool-cases, Option, Text, ap, arith, false, inl, inr, ltb, none, refl, some, suc,
  text_eq, true, zero, ◌+◌, ◌<◌, ◌≡◌, ◌≢◌, ◌≤◌, ◌⊎◌,
}
use dds_rtps.ReturnCode.{ReturnCode, data_not_correct, data_not_received, ok}
use dds_rtps.Checks.{max_samples_read}
use dds_rtps.Checks.Ordering.{Tracks, count_sample, is_first, order_round}
use dds_rtps.Child.{Exception, Outcome, raised, returned}
use dds_rtps.Samples.{Sample}

-- Inversion of one round of the loop.
pub order_round-eq-returned :
    (n : ℕ) (o : Option Tracks) (more : Tracks → Outcome ReturnCode) {r : ReturnCode}
    → order_round n o more ≡ returned r
    → ((max_samples_read ≤ n) × (r ≢ data_not_correct))
      ⊎ ((n < max_samples_read)
          × (((o ≡ none) × (r ≡ data_not_correct))
              ⊎ ((t : Tracks) × (o ≡ some t) × (more t ≡ returned r))))
unfolding order_round
order_round-eq-returned n none more e = ground arith
order_round-eq-returned n (some t) more e = elim (Bool-cases (ltb n max_samples_read)) [
  | inl more_to_read ↦ inr (ground arith, inr (t, refl, ground arith))
  | inr enough ↦ inl (ground arith, ground arith)
]

pub order_round-ok_silent :
    (n : ℕ) (o : Option Tracks)
    → order_round n o (λ _. returned data_not_received) ≡ returned ok
    → max_samples_read ≤ n
unfolding order_round
order_round-ok_silent n none e = ground arith
order_round-ok_silent n (some t) e = ground arith

pub count_sample-eq-returned :
    (i : ℕ) (b : Outcome Bool) (n : ℕ) (more : ℕ → Outcome ReturnCode) {r : ReturnCode}
    → count_sample i b n more ≡ returned r
    → (more n ≡ returned r) ⊎ ((b ≡ returned true) × (more (n + 1) ≡ returned r))
unfolding count_sample
count_sample-eq-returned zero (raised x) n more e = cc e
count_sample-eq-returned zero (returned true) n more e = inr (refl, e)
count_sample-eq-returned zero (returned false) n more e = inl e
count_sample-eq-returned (suc i) b n more e = inl e

pub is_first-eq-true :
    (s : Sample) (first : Option Text)
    → is_first (some s) first ≡ returned true
    → (f : Text) × (first ≡ some f) × (text_eq s.color f ≡ true)
unfolding is_first
is_first-eq-true s none e = cc e
is_first-eq-true s (some f) e = (f, refl, ground arith)

pub is_first-ne-true : (first : Option Text) → is_first none first ≢ returned true
unfolding is_first
is_first-ne-true first e = cc e

pub order_round-eq-raised :
    (n : ℕ) (o : Option Tracks) (more : Tracks → Outcome ReturnCode) {x : Exception}
    → order_round n o more ≡ raised x
    → (t : Tracks) × (o ≡ some t) × (more t ≡ raised x)
unfolding order_round
order_round-eq-raised n none more e = ground arith
order_round-eq-raised n (some t) more e = elim (Bool-cases (ltb n max_samples_read)) [
  | inl more_to_read ↦ (t, refl, ground arith)
  | inr enough ↦ cc (rw enough at e)
]

raised_inj :
    {x y : Exception}
    → ◌≡◌ {A = Outcome ReturnCode} (raised x) (raised y)
    → ◌≡◌ {A = Outcome Bool} (raised x) (raised y)
raised_inj e = ap raised (cc e)

pub count_sample-eq-raised :
    (i : ℕ) (b : Outcome Bool) (n : ℕ) (more : ℕ → Outcome ReturnCode) {x : Exception}
    → count_sample i b n more ≡ raised x
    → (b ≡ raised x) ⊎ ((m : ℕ) × (more m ≡ raised x))
unfolding count_sample
count_sample-eq-raised zero (raised y) n more e = inl (raised_inj e)
count_sample-eq-raised zero (returned true) n more e = inr (n + 1, e)
count_sample-eq-raised zero (returned false) n more e = inr (n, e)
count_sample-eq-raised (suc i) b n more e = inr (n, e)

-- `instance_color[0]` is there once a sample was entered.
pub is_first-ne-raised :
    (o : Option Sample) (first : Option Text) (x : Exception)
    → ((s : Sample) → o ≡ some s → first ≢ none)
    → is_first o first ≢ raised x
unfolding is_first
is_first-ne-raised none first x h = λ e. cc e
is_first-ne-raised (some s) none x h = absurd (h s refl refl)
is_first-ne-raised (some s) (some f) x h = λ e. cc e

-- The loop goes on, whatever the count.
pub count_sample-goes-on :
    (i : ℕ) (b : Outcome Bool) (n : ℕ) (more : ℕ → Outcome ReturnCode) {r : ReturnCode}
    → count_sample i b n more ≡ returned r
    → (m : ℕ) × (more m ≡ returned r)
count_sample-goes-on i b n more e = elim (count_sample-eq-returned i b n more e) [
  | inl on ↦ (n, on)
  | inr (counted, on) ↦ (n + 1, on)
]
