-- ===== src/Report/Waiting/Laws.antt =====
-- The processes of a test do not block each other as long as every check function returns.
use dds_rtps.Prelude.{ℕ, Bool, List, [], false, suc, true, ◌+◌, ◌∷◌, ◌≡◌}
use dds_rtps.Report.Waiting.{
  OneOf, Processes, PublisherStage, Step, SubscriberStage, broken, checking, dismissed, draining,
  publishing, waiting, withdrawn,
}

abbrev publisher_left : PublisherStage → ℕ
publisher_left publishing = 2
publisher_left draining = 1
publisher_left withdrawn = 0

abbrev subscriber_left : SubscriberStage → ℕ
subscriber_left checking = 2
subscriber_left waiting = 1
subscriber_left dismissed = 0
subscriber_left broken = 0

abbrev pub sum_of {ℓ} : {A : Type ℓ} → (A → ℕ) → List A → ℕ
sum_of f [] = 0
sum_of f (x ∷ xs) = f x + sum_of f xs

-- The steps that are left.
abbrev pub steps_left : Processes → ℕ
steps_left s = sum_of publisher_left s.publishers + sum_of subscriber_left s.subscribers

-- A step after which less is left: a process has come to its next stage.
abbrev pub Advance : Bool → Processes → Type 0
Advance may_end s = (t : Processes) × Step may_end s t × (steps_left s ≡ suc (steps_left t))

-- A move of one of a list that lowers a sum.
abbrev Lowering : {A : Type 0} → (A → ℕ) → (A → A → Type 0) → List A → Type 0
Lowering f R xs = (ys : List _) × OneOf R xs ys × (sum_of f xs ≡ suc (sum_of f ys))

abbrev pub is_broken : SubscriberStage → Bool
is_broken broken = true
is_broken checking = false
is_broken waiting = false
is_broken dismissed = false
