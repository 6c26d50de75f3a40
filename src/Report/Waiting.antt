-- ===== src/Report/Waiting.antt =====
-- How the processes of a test wait for each other: the events `subscribers_finished` and
-- `publishers_finished`, as steps of one process at a time in any order. A turn of the publisher's
-- loop that only drains its output is a step that changes no stage. A subscriber whose check function
-- raises is broken: its process has ended and its event is never set.
pub mod Laws
pub mod Order
pub mod Blocked
use dds_rtps.Prelude.{ℕ, All, Bool, List, [], false, suc, true, zero, ◌&&◌, ◌∷◌, ◌≡◌}

-- Where a publisher's process is: before its code is written, in the loop that waits for the
-- subscribers, and behind `publisher_finished.set()`.
pub data PublisherStage : Type 0 where
  publishing draining withdrawn : PublisherStage

-- Where a subscriber's process is: before `subscriber_finished.set()`, waiting for the publishers,
-- and behind that; or ended by an exception before the event.
pub data SubscriberStage : Type 0 where
  checking waiting dismissed broken : SubscriberStage

-- `publisher_finished.is_set()`
abbrev publisher_is_set : PublisherStage → Bool
publisher_is_set publishing = false
publisher_is_set draining = false
publisher_is_set withdrawn = true

-- `subscriber_finished.is_set()`
abbrev subscriber_is_set : SubscriberStage → Bool
subscriber_is_set checking = false
subscriber_is_set waiting = true
subscriber_is_set dismissed = true
subscriber_is_set broken = false

abbrev pub all_set {ℓ} : {A : Type ℓ} → (A → Bool) → List A → Bool
all_set is_set [] = true
all_set is_set (x ∷ xs) = is_set x && all_set is_set xs

pub record Processes : Type 0 where
  pub publishers : List PublisherStage
  pub subscribers : List SubscriberStage

-- A publisher turns in its loop while some subscriber is not finished, and leaves it if all
-- subscribers are finished, or, if applications may end by themselves, at the end of its application's
-- output.
pub data PublisherMove (may_end : Bool) (subscribers : List SubscriberStage)
    : PublisherStage → PublisherStage → Type 0 where
  writes_code : PublisherMove may_end subscribers publishing draining
  drains :
      all_set subscriber_is_set subscribers ≡ false
      → PublisherMove may_end subscribers draining draining
  sees_subscribers :
      all_set subscriber_is_set subscribers ≡ true
      → PublisherMove may_end subscribers draining withdrawn
  reads_eof : may_end ≡ true → PublisherMove may_end subscribers draining withdrawn

pub data SubscriberMove (publishers : List PublisherStage)
    : SubscriberStage → SubscriberStage → Type 0 where
  ends_check : SubscriberMove publishers checking waiting
  raises : SubscriberMove publishers checking broken
  sees_publishers :
      all_set publisher_is_set publishers ≡ true → SubscriberMove publishers waiting dismissed

-- One element of a list moves.
pub data OneOf {A : Type 0} (R : A → A → Type 0) : List A → List A → Type 0 where
  at_head : {x y : A} {xs : List A} → R x y → OneOf R (x ∷ xs) (y ∷ xs)
  further : {x : A} {xs ys : List A} → OneOf R xs ys → OneOf R (x ∷ xs) (x ∷ ys)

pub data Step (may_end : Bool) : Processes → Processes → Type 0 where
  publisher_steps :
      {ps ps' : List PublisherStage} {ss : List SubscriberStage}
      → OneOf (PublisherMove may_end ss) ps ps'
      → Step may_end
          (record { publishers = ps; subscribers = ss })
          (record { publishers = ps'; subscribers = ss })
  subscriber_steps :
      {ps : List PublisherStage} {ss ss' : List SubscriberStage}
      → OneOf (SubscriberMove ps) ss ss'
      → Step may_end
          (record { publishers = ps; subscribers = ss })
          (record { publishers = ps; subscribers = ss' })

-- A number of steps.
pub data Course (may_end : Bool) : ℕ → Processes → Processes → Type 0 where
  standing : {s : Processes} → Course may_end 0 s s
  one_more :
      {n : ℕ} {s t u : Processes}
      → Step may_end s t
      → Course may_end n t u
      → Course may_end (suc n) s u

-- Every process has returned.
abbrev pub IsOver : Processes → Type 0
IsOver s = All (λ p. p ≡ withdrawn) s.publishers × All (λ p. p ≡ dismissed) s.subscribers

abbrev repeat {ℓ} : {A : Type ℓ} → A → ℕ → List A
repeat x zero = []
repeat x (suc n) = x ∷ repeat x n

-- The processes of a test with so many publishers and subscribers, as they start.
abbrev pub started : ℕ → ℕ → Processes
started m n = record { publishers = repeat publishing m; subscribers = repeat checking n }
