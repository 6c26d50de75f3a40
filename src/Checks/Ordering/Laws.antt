-- ===== src/Checks/Ordering/Laws.antt =====
-- What the order check and the reliability check guarantee about the samples of each instance.
-- Each instance's sizes are linked in a first part of the samples that a run printed, in which the
-- first instance has 500 samples at least.
use dds_rtps.Prelude.{
  ℕ, Bool-cases, List, Option, Text, [], arith, inl, inr, length, none, or_else, refl, some, sym,
  ◌++◌, ◌+◌, ◌<◌, ◌∙◌, ◌∷◌, ◌≡◌, ◌≢◌, ◌≤◌, ◌⊎◌,
}
use dds_rtps.ReturnCode.{ReturnCode, data_not_correct, ok, same_code, same_code_iff}
use dds_rtps.Checks.{max_samples_read}
use dds_rtps.Checks.Ordering.{
  check_order, greater_size, next_size, order_loop, test_order_w_instances,
  test_reliability_no_losses_w_instances,
}
use dds_rtps.Checks.Ordering.Loop.{order_loop-IsBroken, order_loop-IsOrdered, order_loop-ne-raised}
use dds_rtps.Checks.Ordering.Trace.{Linked, first_of, printed, sizes_of}
use dds_rtps.Checks.Ordering.Tracks.{
  Decides, Settled, greater_size-Decides, last_size, next_size-Decides,
}
use dds_rtps.Checks.Ordering.Verdicts.{IsOrdered}
use dds_rtps.Checks.Table.{find}
use dds_rtps.Child.{Exception, Feed, raised, returned}
use dds_rtps.Samples.{Sample, basic_check}

pub record Succeeds (R : ℕ → ℕ → Type 0) (samples : List Sample) : Type 0 where
  pub head : Sample
  pub read : List Sample
  pub rest : List Sample
  pub split : samples ≡ (head ∷ read) ++ rest
  pub linked : (c : Text) → Linked R none (sizes_of c (head ∷ read))
  pub counted : max_samples_read ≤ length (sizes_of head.color (head ∷ read))

-- A first part of the samples has an instance whose sizes are not linked.
pub record Fails (R : ℕ → ℕ → Type 0) (samples : List Sample) : Type 0 where
  pub read : List Sample
  pub rest : List Sample
  pub split : samples ≡ read ++ rest
  pub color : Text
  pub broken : ¬ Linked R none (sizes_of color read)

IsOrdered-Succeeds :
    (R : ℕ → ℕ → Type 0) (samples : List Sample) → IsOrdered R 0 [] samples → Succeeds R samples
unfolding find or_else
IsOrdered-Succeeds R samples o = nonempty o.read o.split o.linked o.counted o.nonempty
  where
    nonempty :
        (read : List Sample)
        → samples ≡ read ++ o.rest
        → ((c : Text) → Linked R (last_size [] c) (sizes_of c read))
        → ((c : Text) → first_of [] read ≡ some c → max_samples_read ≤ 0 + length (sizes_of c read))
        → (first_of [] read ≡ none → max_samples_read ≤ 0)
        → Succeeds R samples
    nonempty [] split linked counted some_read = absurd (omega (arith, some_read refl))
    nonempty (s ∷ read) split linked counted some_read = record {
      head = s;
      read = read;
      rest = o.rest;
      split = split;
      linked = linked;
      counted = omega (arith, counted s.color refl);
    }

Settled-nil : Settled []
unfolding find
Settled-nil c t e = cc e

-- A check that ends with a verdict other than one of `basic_check`'s has run its loop.
check_order-eq-returned :
    (advance : ℕ → ℕ → Option ℕ) (text : Text) (feed : Feed) {r : ReturnCode}
    → check_order advance text feed ≡ returned r
    → ((basic_check text ≡ ok) × (order_loop advance [] 0 text feed ≡ returned r))
      ⊎ ((basic_check text ≡ r) × (r ≢ ok))
unfolding check_order
check_order-eq-returned advance text feed {r} e =
    elim (Bool-cases (same_code (basic_check text) ok)) [
      | inl fine ↦ inl ((same_code_iff _ _).0 fine, rw fine at e)
      | inr failed ↦
          let same : basic_check text ≡ r = ground (arith) in
          inr (same, λ p. cc ((same_code_iff (basic_check text) ok).1 (same ∙ p)))
    ]

module _ (advance : ℕ → ℕ → Option ℕ) (R : ℕ → ℕ → Type 0) (d : Decides advance R) where
  check_order-Succeeds :
      (text : Text) (feed : Feed)
      → check_order advance text feed ≡ returned ok
      → Succeeds R (printed text feed)
  check_order-Succeeds text feed e = elim (check_order-eq-returned advance text feed e) [
    | inl (fine, run) ↦
        IsOrdered-Succeeds R _ (order_loop-IsOrdered advance R d [] 0 text feed Settled-nil run)
    | inr (_, other) ↦ absurd (other refl)
  ]

  check_order-Fails :
      (text : Text) (feed : Feed)
      → basic_check text ≡ ok
      → check_order advance text feed ≡ returned data_not_correct
      → Fails R (printed text feed)
  unfolding find
  check_order-Fails text feed fine e = elim (check_order-eq-returned advance text feed e) [
    | inl (_, run) ↦
        let b = order_loop-IsBroken advance R d [] 0 text feed Settled-nil run in
        record { read = b.read; rest = b.rest; split = b.split; color = b.color; broken = b.broken }
    | inr (failed, _) ↦ cc (sym fine ∙ failed)
  ]

  check_order-ne-raised :
      (text : Text) (feed : Feed) (x : Exception) → check_order advance text feed ≢ raised x
  unfolding check_order
  check_order-ne-raised text feed x e = elim (Bool-cases (same_code (basic_check text) ok)) [
    | inl fine ↦ order_loop-ne-raised advance R d [] 0 text feed x Settled-nil (rw fine at e)
    | inr failed ↦ cc (rw failed at e)
  ]

-- The order check returns OK only if the samples printed before the first TIMEOUT or EOF begin with
-- a part in which the sizes of each instance strictly grow and the first instance has at least 500
-- samples.
pub test_order_w_instances-Succeeds :
    (text : Text) (feed : Feed)
    → test_order_w_instances text feed ≡ returned ok
    → Succeeds ◌<◌ (printed text feed)
unfolding test_order_w_instances
test_order_w_instances-Succeeds = check_order-Succeeds greater_size ◌<◌ greater_size-Decides

-- Where the output passes `basic_check`, the order check returns DATA_NOT_CORRECT only if the
-- samples printed before the first TIMEOUT or EOF begin with a part in which the sizes of some
-- instance do not strictly grow.
pub test_order_w_instances-Fails :
    (text : Text) (feed : Feed)
    → basic_check text ≡ ok
    → test_order_w_instances text feed ≡ returned data_not_correct
    → Fails ◌<◌ (printed text feed)
unfolding test_order_w_instances
test_order_w_instances-Fails = check_order-Fails greater_size ◌<◌ greater_size-Decides

-- The reliability check returns OK only if the samples printed before the first TIMEOUT or EOF
-- begin with a part in which each size of an instance is the one before it plus 1, with no loss, and
-- the first instance has at least 500 samples.
pub test_reliability-Succeeds :
    (text : Text) (feed : Feed)
    → test_reliability_no_losses_w_instances text feed ≡ returned ok
    → Succeeds (λ x y. x + 1 ≡ y) (printed text feed)
unfolding test_reliability_no_losses_w_instances
test_reliability-Succeeds = check_order-Succeeds next_size (λ x y. x + 1 ≡ y) next_size-Decides

-- Where the output passes `basic_check`, the reliability check returns DATA_NOT_CORRECT only if the
-- samples printed before the first TIMEOUT or EOF begin with a part in which some instance has a
-- size that is not the one before it plus 1.
pub test_reliability-Fails :
    (text : Text) (feed : Feed)
    → basic_check text ≡ ok
    → test_reliability_no_losses_w_instances text feed ≡ returned data_not_correct
    → Fails (λ x y. x + 1 ≡ y) (printed text feed)
unfolding test_reliability_no_losses_w_instances
test_reliability-Fails = check_order-Fails next_size (λ x y. x + 1 ≡ y) next_size-Decides

-- Neither check ends by an exception: `instance_color[0]` is there whenever it is read.
pub order_checks-ne-raised :
    (text : Text) (feed : Feed) (x : Exception)
    → (test_order_w_instances text feed ≢ raised x)
      × (test_reliability_no_losses_w_instances text feed ≢ raised x)
unfolding test_order_w_instances test_reliability_no_losses_w_instances
order_checks-ne-raised text feed x = (
  check_order-ne-raised greater_size ◌<◌ greater_size-Decides text feed x,
  check_order-ne-raised next_size (λ x y. x + 1 ≡ y) next_size-Decides text feed x,
)
