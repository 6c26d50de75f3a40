-- ===== src/Checks/Instances.antt =====
-- The part that the checks with instances share: a sample is entered into the lists and moves the
-- entries of its color by one step.
pub mod Laws
pub mod Runs
use dds_rtps.Prelude.{ℕ, Bool, List, Option, Text, false, none, some}
use dds_rtps.Checks.Table.{enter, find, modify}
use dds_rtps.Samples.{Sample}

abbrev pub Seen : Type 0 → Type 0
Seen P = List (Text × P)

module _ {P : Type 0} (start : ℕ → P) (step : P → ℕ → Option (P × Bool)) where
  -- One sample; `none` breaks the loop with DATA_NOT_CORRECT. The Boolean tells the caller what the
  -- step has noticed.
  unfoldable pub visit_instance : Sample → Seen P → Option (Seen P × Bool)
  visit_instance s seen =
      let known = enter s.color (start s.size) seen in
      elim (find s.color known) [
        | none ↦ none
        | some p ↦ elim (step p s.size) [
          | none ↦ none
          | some (q, noticed) ↦ some (modify s.color q known, noticed)
        ]
      ]

  unfoldable pub observe_instance : Option Sample → Seen P → Option (Seen P × Bool)
  unfolding visit_instance
  observe_instance none seen = some (seen, false)
  observe_instance (some s) seen = visit_instance s seen
