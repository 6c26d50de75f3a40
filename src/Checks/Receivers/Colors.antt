-- ===== src/Checks/Receivers/Colors.antt =====
-- The color check: its verdict, and that it raises nothing.
use dds_rtps.Prelude.{
  ℕ, Bool-cases, List, Option, Option-cases, Text, [], arith, if◌then◌else◌, inl, inr, none, refl,
  some, suc, text_eq, text_eq_iff, zero, ◌+◌, ◌↔◌, ◌∷◌, ◌≡◌, ◌≢◌, ◌≤◌,
}
use dds_rtps.ReturnCode.{ok, receiving_from_both, same_code, same_code_iff}
use dds_rtps.Checks.{max_samples_read}
use dds_rtps.Checks.Readings.{readings, readings_from}
use dds_rtps.Checks.Receivers.{color_loop, color_round, color_search, test_color_receivers}
use dds_rtps.Child.{Exception, Feed, eof, found, raised, returned, timeout}
use dds_rtps.Samples.{basic_check, color_pattern, search_group}
use dds_rtps.Samples.Laws.{basic_check-IsBasic, search_color_of_basic_check}

-- How many colors differ from the first one.
abbrev pub differing_from : Text → List Text → ℕ
differing_from c [] = 0
differing_from c (d ∷ ds) = (if text_eq d c then 0 else 1) + differing_from c ds

abbrev pub differing : List Text → ℕ
differing [] = 0
differing (c ∷ cs) = differing_from c cs

color_loop-both_iff :
    (first : Text) (n samples_read : ℕ) (sub : Option Text) (feed : Feed)
    → samples_read + n ≡ max_samples_read
    → (color_loop first samples_read sub feed ≡ receiving_from_both)
      ↔ (1 ≤ differing_from first (readings_from (search_group color_pattern) n sub feed))
unfolding color_loop color_round
color_loop-both_iff first n samples_read none [] h = ground arith
color_loop-both_iff first n samples_read none (r ∷ feed) h = ground arith
color_loop-both_iff first zero samples_read (some c) [] h = ground arith
color_loop-both_iff first zero samples_read (some c) (r ∷ feed) h = ground arith
color_loop-both_iff first (suc n) samples_read (some c) [] h = ground arith
color_loop-both_iff first (suc n) samples_read (some c) (timeout ∷ feed) h = ground arith
color_loop-both_iff first (suc n) samples_read (some c) (eof ∷ feed) h = ground arith
color_loop-both_iff first (suc n) samples_read (some c) (found i text ∷ feed) h =
    ground
      (arith, color_loop-both_iff first n (samples_read + 1) (search_group color_pattern text) feed)

differing-readings_from :
    (c : Text) (limit : ℕ) (feed : Feed)
    → differing (readings_from (search_group color_pattern) limit (some c) feed)
      ≡ differing_from c (readings_from (search_group color_pattern) limit (some c) feed)
differing-readings_from c zero feed = refl
differing-readings_from c (suc n) [] = ground (arith, text_eq_iff c c)
differing-readings_from c (suc n) (found i text ∷ feed) = ground (arith, text_eq_iff c c)
differing-readings_from c (suc n) (timeout ∷ feed) = ground (arith, text_eq_iff c c)
differing-readings_from c (suc n) (eof ∷ feed) = ground (arith, text_eq_iff c c)

color_search-both_iff :
    (o : Option Text) (feed : Feed)
    → (color_search o feed ≡ returned receiving_from_both)
      ↔ (1 ≤ differing (readings_from (search_group color_pattern) max_samples_read o feed))
unfolding color_search
color_search-both_iff none feed = ground arith
color_search-both_iff (some c) feed =
    rw (differing-readings_from c max_samples_read feed)
      (ground (arith, color_loop-both_iff c max_samples_read 0 (some c) feed))

-- The color check reports that both publishers are received exactly when the output passes
-- `basic_check` and one of the first 500 samples, read one after the other up to an output without
-- a sample, a TIMEOUT or EOF, has another color than the first.
pub test_color_receivers-both_iff :
    (text : Text) (feed : Feed)
    → (test_color_receivers text feed ≡ returned receiving_from_both) ↔ (
        (basic_check text ≡ ok)
        × (1 ≤ differing (readings (search_group color_pattern) max_samples_read text feed)))
unfolding test_color_receivers
test_color_receivers-both_iff text feed = elim (Bool-cases (same_code (basic_check text) ok)) [
  | inl fine ↦
      let well = (same_code_iff (basic_check text) ok).0 fine in
      let (to, from) = color_search-both_iff (search_group color_pattern text) feed in
      rw fine (λ e. (well, to e), λ p. from p.1)
  | inr failed ↦ ground (arith, same_code_iff (basic_check text) ok, basic_check-IsBasic text)
]

-- The color check never ends by an exception: where the output passes `basic_check`, the search for
-- the color finds a match, so that `group(1)` is there.
pub test_color_receivers-ne-raised :
    (text : Text) (feed : Feed) (e : Exception) → test_color_receivers text feed ≢ raised e
unfolding test_color_receivers color_search
test_color_receivers-ne-raised text feed e = elim (Bool-cases (same_code (basic_check text) ok)) [
  | inl fine ↦ elim (Option-cases (search_group color_pattern text)) [
    | inl missed ↦ absurd (search_color_of_basic_check text ((same_code_iff _ _).0 fine) missed)
    | inr (c, hit) ↦ rw (fine, hit, color_search) (λ p. cc p)
  ]
  | inr failed ↦ rw failed (λ p. cc p)
]
