-- ===== src/Junit.antt =====
-- benchmarking/junit_compare: the results in the JUnit reports, their classes and their counts.
pub mod Classify
pub mod Tables
pub mod Results
pub mod Loading
pub mod Comparison
pub mod Differences
pub mod Unchanged
pub mod Files
pub mod Groups
pub mod Explanation
pub mod Division
pub mod Dictionaries
pub mod Statuses
mod Tests
mod ReportTests
use dds_rtps.Prelude.{
  ℕ, ==_iff, Bool, Text, ap, if◌then◌else◌, refl, sym, true, ◌==◌, ◌↔◌, ◌∙◌, ◌≡◌,
}

-- RichStatus of models.py
pub data RichStatus : Type 0 where
  passed passed_as_skipped skipped_unsupported skipped_other : RichStatus
  failure_qos_unexpected failure_false_pass failure_data failure_ordering : RichStatus
  failure_infrastructure failure_other error : RichStatus

abbrev position : RichStatus → ℕ
position passed = 0
position passed_as_skipped = 1
position skipped_unsupported = 2
position skipped_other = 3
position failure_qos_unexpected = 4
position failure_false_pass = 5
position failure_data = 6
position failure_ordering = 7
position failure_infrastructure = 8
position failure_other = 9
position error = 10

-- The member with a given position.
at_position : ℕ → RichStatus
at_position n =
    if n == 0
    then passed
    else if n == 1
    then passed_as_skipped
    else if n == 2
    then skipped_unsupported
    else if n == 3
    then skipped_other
    else if n == 4
    then failure_qos_unexpected
    else if n == 5
    then failure_false_pass
    else if n == 6
    then failure_data
    else if n == 7
    then failure_ordering
    else if n == 8
    then failure_infrastructure
    else if n == 9
    then failure_other
    else error

at_position-position : (s : RichStatus) → at_position (position s) ≡ s
unfolding at_position
at_position-position passed = refl
at_position-position passed_as_skipped = refl
at_position-position skipped_unsupported = refl
at_position-position skipped_other = refl
at_position-position failure_qos_unexpected = refl
at_position-position failure_false_pass = refl
at_position-position failure_data = refl
at_position-position failure_ordering = refl
at_position-position failure_infrastructure = refl
at_position-position failure_other = refl
at_position-position error = refl

-- `==` of two members of the enumeration
unfoldable pub same_status : RichStatus → RichStatus → Bool
same_status a b = position a == position b

pub same_status_iff : (a b : RichStatus) → (same_status a b ≡ true) ↔ (a ≡ b)
unfolding same_status
same_status_iff a b = (
  λ h. sym (at_position-position a) ∙ ap at_position ((==_iff _ _).0 h) ∙ at_position-position b,
  λ e. (==_iff _ _).1 (ap position e),
)

-- The element of a test case in the report: none, or `<failure>`, `<error>`, `<skipped>`.
pub data XmlTag : Type 0 where
  tag_passed tag_failure tag_error tag_skipped : XmlTag

-- OutcomeRow: the role, the expected and the produced code, as they are printed.
pub record OutcomeRow : Type 0 where
  pub role : Text
  pub expected : Text
  pub produced : Text
