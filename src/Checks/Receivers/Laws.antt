-- ===== src/Checks/Receivers/Laws.antt =====
-- When the two checks report that samples of both publishers arrive.
use dds_rtps.Prelude.{
  ℕ, Bool, List, Option, Text, [], arith, false, if◌then◌else◌, none, refl, some, suc, true, zero,
  ◌+◌, ◌==◌, ◌↔◌, ◌∷◌, ◌≡◌, ◌≤◌,
}
use dds_rtps.ReturnCode.{ok, receiving_from_both, same_code}
use dds_rtps.Checks.{max_samples_read}
use dds_rtps.Checks.Readings.{readings, readings_from}
use dds_rtps.Checks.Receivers.{size_loop, size_round, size_search, test_size_receivers}
use dds_rtps.Child.{Feed, eof, found, timeout}
use dds_rtps.Samples.{basic_check, basic_code, sample_pattern, search_int}

-- How often the size changes from one sample to the next.
abbrev pub changes_from : ℕ → List ℕ → ℕ
changes_from x [] = 0
changes_from x (y ∷ ys) = (if y == x then 0 else 1) + changes_from y ys

abbrev changes_left : Bool → ℕ
changes_left true = 2
changes_left false = 1

size_loop-both_iff :
    (first : ℕ) (ignore : Bool) (n samples_read : ℕ) (sub : Option ℕ) (feed : Feed)
    → samples_read + n ≡ max_samples_read
    → (size_loop first ignore samples_read sub feed ≡ receiving_from_both) ↔ (
        changes_left ignore
        ≤ changes_from first (readings_from (search_int sample_pattern) n sub feed))
unfolding size_loop size_round
size_loop-both_iff first true n samples_read none [] h = ground arith
size_loop-both_iff first false n samples_read none [] h = ground arith
size_loop-both_iff first true n samples_read none (r ∷ feed) h = ground arith
size_loop-both_iff first false n samples_read none (r ∷ feed) h = ground arith
size_loop-both_iff first true zero samples_read (some x) [] h = ground arith
size_loop-both_iff first false zero samples_read (some x) [] h = ground arith
size_loop-both_iff first true zero samples_read (some x) (r ∷ feed) h = ground arith
size_loop-both_iff first false zero samples_read (some x) (r ∷ feed) h = ground arith
size_loop-both_iff first true (suc n) samples_read (some x) [] h = ground arith
size_loop-both_iff first false (suc n) samples_read (some x) [] h = ground arith
size_loop-both_iff first true (suc n) samples_read (some x) (timeout ∷ feed) h = ground arith
size_loop-both_iff first false (suc n) samples_read (some x) (timeout ∷ feed) h = ground arith
size_loop-both_iff first true (suc n) samples_read (some x) (eof ∷ feed) h = ground arith
size_loop-both_iff first false (suc n) samples_read (some x) (eof ∷ feed) h = ground arith
size_loop-both_iff first true (suc n) samples_read (some x) (found i text ∷ feed) h = ground (
  arith,
  size_loop-both_iff first true n (samples_read + 1) (search_int sample_pattern text) feed,
  size_loop-both_iff x false n (samples_read + 1) (search_int sample_pattern text) feed,
)
size_loop-both_iff first false (suc n) samples_read (some x) (found i text ∷ feed) h = ground (
  arith,
  size_loop-both_iff first false n (samples_read + 1) (search_int sample_pattern text) feed,
)

abbrev pub changes : List ℕ → ℕ
changes [] = 0
changes (x ∷ xs) = changes_from x xs

changes-readings_from :
    (x limit : ℕ) (feed : Feed)
    → changes (readings_from (search_int sample_pattern) limit (some x) feed)
      ≡ changes_from x (readings_from (search_int sample_pattern) limit (some x) feed)
changes-readings_from x zero feed = refl
changes-readings_from x (suc n) [] = ground arith
changes-readings_from x (suc n) (found i text ∷ feed) = ground arith
changes-readings_from x (suc n) (timeout ∷ feed) = ground arith
changes-readings_from x (suc n) (eof ∷ feed) = ground arith

size_search-both_iff :
    (o : Option ℕ) (feed : Feed)
    → ((if same_code (basic_code o) ok then size_search o feed else basic_code o)
        ≡ receiving_from_both)
      ↔ ((basic_code o ≡ ok)
          × (2 ≤ changes (readings_from (search_int sample_pattern) max_samples_read o feed)))
unfolding size_search same_code
size_search-both_iff none feed = ground arith
size_search-both_iff (some x) feed =
    rw (changes-readings_from x max_samples_read feed)
      (ground (arith, size_loop-both_iff x true max_samples_read 0 (some x) feed))

-- The size check reports that both publishers are received exactly when the output passes
-- `basic_check` and the size changes at least twice among the first 500 samples, read one after
-- the other up to an output without a sample, a TIMEOUT or EOF.
pub test_size_receivers-both_iff :
    (text : Text) (feed : Feed)
    → (test_size_receivers text feed ≡ receiving_from_both) ↔ (
        (basic_check text ≡ ok)
        × (2 ≤ changes (readings (search_int sample_pattern) max_samples_read text feed)))
unfolding test_size_receivers basic_check
test_size_receivers-both_iff text feed = size_search-both_iff (search_int sample_pattern text) feed
