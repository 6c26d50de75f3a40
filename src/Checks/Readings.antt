-- ===== src/Checks/Readings.antt =====
-- What a run printed, read by one regular expression: the values up to the first output in which
-- the expression is not found, or up to the first TIMEOUT or EOF, and `limit` of them at most.
use dds_rtps.Prelude.{ℕ, List, Option, Text, [], none, some, suc, zero, ◌∷◌}
use dds_rtps.Child.{Feed, eof, found, timeout}

module _ {ℓ} {A : Type ℓ} (read : Text → Option A) where
  abbrev pub readings_from : ℕ → Option A → Feed → List A
  readings_from limit none feed = []
  readings_from zero (some a) feed = []
  readings_from (suc limit) (some a) [] = a ∷ []
  readings_from (suc limit) (some a) (found i text ∷ feed) =
      a ∷ readings_from limit (read text) feed
  readings_from (suc limit) (some a) (timeout ∷ feed) = a ∷ []
  readings_from (suc limit) (some a) (eof ∷ feed) = a ∷ []

  abbrev pub readings : ℕ → Text → Feed → List A
  readings limit text feed = readings_from limit (read text) feed
