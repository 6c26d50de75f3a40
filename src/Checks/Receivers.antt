-- ===== src/Checks/Receivers.antt =====
-- `test_size_receivers` and `test_color_receivers`: does the subscriber receive from one publisher
-- or from both?
pub mod Laws
pub mod Colors
use dds_rtps.Prelude.{
  ℕ, Bool, Option, Text, [], false, if◌then◌else◌, ltb, none, some, text_eq, true, ◌+◌, ◌==◌, ◌∷◌,
}
use dds_rtps.ReturnCode.{
  ReturnCode, data_not_received, ok, receiving_from_both, receiving_from_one, same_code,
}
use dds_rtps.Checks.{max_samples_read}
use dds_rtps.Child.{Feed, Outcome, attribute_error, eof, found, raised, returned, timeout}
use dds_rtps.Samples.{basic_check, color_pattern, sample_pattern, search_group, search_int}

-- The test of the loop and the comparison of sizes; `more` goes on with `first_sample_size` and
-- `ignore_first_samples`.
size_round : ℕ → Bool → ℕ → Option ℕ → (ℕ → Bool → ReturnCode) → ReturnCode
size_round first ignore samples_read none more = receiving_from_one
size_round first ignore samples_read (some current) more =
    if ltb samples_read max_samples_read
    then (if current == first
        then more first ignore
        else (if ignore then more current false else receiving_from_both))
    else receiving_from_one

size_loop : ℕ → Bool → ℕ → Option ℕ → Feed → ReturnCode
size_loop first ignore samples_read sub [] =
    size_round first ignore samples_read sub (λ _ _. data_not_received)
size_loop first ignore samples_read sub (r ∷ feed) =
    size_round first ignore samples_read sub λ first' ignore'. elim r [
      | found i text ↦
          size_loop first' ignore' (samples_read + 1) (search_int sample_pattern text) feed
      | timeout ↦ receiving_from_one
      | eof ↦ data_not_received
    ]

size_search : Option ℕ → Feed → ReturnCode
size_search none feed = data_not_received
size_search (some first) feed = size_loop first true 0 (some first) feed

unfoldable pub test_size_receivers : Text → Feed → ReturnCode
unfolding size_search size_loop size_round
test_size_receivers text feed =
    if same_code (basic_check text) ok
    then size_search (search_int sample_pattern text) feed
    else basic_check text

color_round : Text → ℕ → Option Text → ReturnCode → ReturnCode
color_round first samples_read none more = receiving_from_one
color_round first samples_read (some current) more =
    if ltb samples_read max_samples_read
    then (if text_eq current first then more else receiving_from_both)
    else receiving_from_one

color_loop : Text → ℕ → Option Text → Feed → ReturnCode
color_loop first samples_read sub [] = color_round first samples_read sub data_not_received
color_loop first samples_read sub (r ∷ feed) =
    let more : ReturnCode = elim r [
      | found i text ↦ color_loop first (samples_read + 1) (search_group color_pattern text) feed
      | timeout ↦ receiving_from_one
      | eof ↦ data_not_received
    ] in
    color_round first samples_read sub more

-- `sub_string.group(1)` of a search that found nothing is an AttributeError.
color_search : Option Text → Feed → Outcome ReturnCode
color_search none feed = raised attribute_error
color_search (some first) feed = returned (color_loop first 0 (some first) feed)

unfoldable pub test_color_receivers : Text → Feed → Outcome ReturnCode
unfolding color_search color_loop color_round
test_color_receivers text feed =
    if same_code (basic_check text) ok
    then color_search (search_group color_pattern text) feed
    else returned (basic_check text)
