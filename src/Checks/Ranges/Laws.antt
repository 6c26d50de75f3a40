-- ===== src/Checks/Ranges/Laws.antt =====
-- The verdicts of the checks of sizes.
use dds_rtps.Prelude.{
  ℕ, Bool, List, Option, Option-cases, Text, [], arith, if◌then◌else◌, inl, inr, leb, ltb, none,
  refl, some, suc, zero, ◌+◌, ◌/◌, ◌==◌, ◌↔◌, ◌∷◌, ◌≡◌, ◌≤◌,
}
use dds_rtps.ReturnCode.{ReturnCode, data_not_correct, ok, same_code, same_code_iff}
use dds_rtps.Checks.{max_samples_read}
use dds_rtps.Checks.Ranges.{
  large_loop, large_round, range_loop, range_round, size_verdict, test_durability_transient_local,
  test_durability_volatile, test_large_data, test_size_less_than_20,
}
use dds_rtps.Checks.Readings.{readings, readings_from}
use dds_rtps.Child.{Feed, eof, found, returned, timeout}
use dds_rtps.Samples.{basic_check, large_pattern, search_int, size_pattern}
use dds_rtps.Samples.Laws.{search_size_of_basic_check}

-- How many sizes are not between 1 and 20.
abbrev pub outside : List ℕ → ℕ
outside [] = 0
outside (x ∷ xs) = (if leb 1 x then (if leb x 20 then 0 else 1) else 1) + outside xs

range_loop-not_correct_iff :
    (n samples_read : ℕ) (sub : Option ℕ) (feed : Feed)
    → samples_read + n ≡ max_samples_read / 2
    → (range_loop samples_read sub feed ≡ data_not_correct)
      ↔ (1 ≤ outside (readings_from (search_int size_pattern) n sub feed))
unfolding range_loop range_round
range_loop-not_correct_iff n samples_read none [] h = ground arith
range_loop-not_correct_iff n samples_read none (r ∷ feed) h = ground arith
range_loop-not_correct_iff zero samples_read (some c) [] h = ground arith
range_loop-not_correct_iff zero samples_read (some c) (r ∷ feed) h = ground arith
range_loop-not_correct_iff (suc n) samples_read (some c) [] h = ground arith
range_loop-not_correct_iff (suc n) samples_read (some c) (timeout ∷ feed) h = ground arith
range_loop-not_correct_iff (suc n) samples_read (some c) (eof ∷ feed) h = ground arith
range_loop-not_correct_iff (suc n) samples_read (some c) (found i text ∷ feed) h =
    ground
      (arith, range_loop-not_correct_iff n (samples_read + 1) (search_int size_pattern text) feed)

-- Where the output passes `basic_check`, the size check says DATA_NOT_CORRECT exactly when one of
-- the first 250 sizes, read one after the other up to an output without a size, a TIMEOUT or EOF,
-- is not between 1 and 20.
pub test_size_less_than_20-not_correct_iff :
    (text : Text) (feed : Feed)
    → basic_check text ≡ ok
    → (test_size_less_than_20 text feed ≡ data_not_correct)
      ↔ (1 ≤ outside (readings (search_int size_pattern) (max_samples_read / 2) text feed))
unfolding test_size_less_than_20 same_code
test_size_less_than_20-not_correct_iff text feed h =
    rw h
      (range_loop-not_correct_iff (max_samples_read / 2) 0 (search_int size_pattern text) feed refl)

-- The size that the durability checks read is there, and decides.
module _ (good : ℕ → Bool) (text : Text) where
  size_verdict-returned :
      basic_check text ≡ ok
      → (size : ℕ) × (search_int size_pattern text ≡ some size)
        × (size_verdict good (search_int size_pattern text)
            ≡ returned (if good size then ok else data_not_correct))
  unfolding size_verdict
  size_verdict-returned h = elim (Option-cases (search_int size_pattern text)) [
    | inl missed ↦ absurd (search_size_of_basic_check text h missed)
    | inr (size, hit) ↦ (size, hit, rw hit)
  ]

-- Where the output passes `basic_check`, a size is printed in it, and the two durability checks
-- return: the volatile one OK exactly for a size of 5 or more, the transient local one OK exactly
-- for size 1, and DATA_NOT_CORRECT for the others.
pub durability_verdicts :
    (text : Text)
    → basic_check text ≡ ok
    → (size : ℕ) × (search_int size_pattern text ≡ some size)
      × (test_durability_volatile text ≡ returned (if ltb size 5 then data_not_correct else ok))
      × (test_durability_transient_local text
          ≡ returned (if size == 1 then ok else data_not_correct))
unfolding test_durability_volatile test_durability_transient_local same_code
durability_verdicts text h =
    let (size, hit, late) = size_verdict-returned (λ n. leb 5 n) text h in
    let (size', hit', first) = size_verdict-returned (λ n. n == 1) text h in
    (size, hit, rw h (ground (arith)), rw h (ground arith))

abbrev counted : Option ℕ → ℕ → ℕ
counted none n = 0
counted (some byte) n = if byte == 255 then suc n else 0

-- How many replies at the front are samples whose last additional byte is 255.
abbrev pub large_prefix : Feed → ℕ
large_prefix [] = 0
large_prefix (found i text ∷ feed) = counted (search_int large_pattern text) (large_prefix feed)
large_prefix (timeout ∷ feed) = 0
large_prefix (eof ∷ feed) = 0

large_round-ok_iff :
    (o : Option ℕ) (more : ReturnCode) (left n : ℕ)
    → (more ≡ ok) ↔ (left ≤ n)
    → (large_round o more ≡ ok) ↔ (suc left ≤ counted o n)
unfolding large_round
large_round-ok_iff none more left n h = ground arith
large_round-ok_iff (some byte) more left n h = ground arith

large_loop-ok_iff :
    (left samples_read : ℕ) (feed : Feed)
    → samples_read + left ≡ max_samples_read
    → (large_loop samples_read feed ≡ ok) ↔ (left ≤ large_prefix feed)
unfolding large_loop
large_loop-ok_iff zero samples_read [] h = ground arith
large_loop-ok_iff zero samples_read (r ∷ feed) h = ground arith
large_loop-ok_iff (suc left) samples_read [] h = ground arith
large_loop-ok_iff (suc left) samples_read (timeout ∷ feed) h = ground arith
large_loop-ok_iff (suc left) samples_read (eof ∷ feed) h = ground arith
large_loop-ok_iff (suc left) samples_read (found i text ∷ feed) h = ground (
  arith,
  large_round-ok_iff (search_int large_pattern text) (large_loop (samples_read + 1) feed) left
      (large_prefix feed) (large_loop-ok_iff left (samples_read + 1) feed (omega arith)),
)

-- The large data check succeeds exactly when the output passes `basic_check` and the next 500
-- replies at least are samples whose last additional byte is 255, with no TIMEOUT or EOF between.
pub test_large_data-ok_iff :
    (text : Text) (feed : Feed)
    → (test_large_data text feed ≡ ok)
      ↔ ((basic_check text ≡ ok) × (max_samples_read ≤ large_prefix feed))
unfolding test_large_data
test_large_data-ok_iff text feed =
    ground
      (arith, large_loop-ok_iff max_samples_read 0 feed refl, same_code_iff (basic_check text) ok)
