-- ===== src/Checks.antt =====
-- test_suite_functions.py: the functions that judge what a subscriber prints.
pub mod Readings
pub mod Receivers
pub mod Ranges
pub mod Table
pub mod Ordering
pub mod Instances
pub mod NotAlive
pub mod EveryTen
pub mod Lifespan
pub mod Access
mod Tests
mod InstanceTests
use dds_rtps.Prelude.{ℕ}

-- `MAX_SAMPLES_READ`
abbrev pub max_samples_read : ℕ
max_samples_read = 500
