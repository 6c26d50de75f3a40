-- ===== src/Checks/Ranges.antt =====
-- `test_size_less_than_20`, `test_durability_volatile`, `test_durability_transient_local`,
-- `test_deadline_missed` and `test_large_data`: checks of the sizes alone.
pub mod Laws
use dds_rtps.Prelude.{
  ℕ, Bool, Option, Text, [], if◌then◌else◌, leb, ltb, none, some, ◌+◌, ◌/◌, ◌==◌, ◌||◌, ◌∷◌,
}
use dds_rtps.ReturnCode.{
  ReturnCode, data_not_correct, data_not_received, deadline_missed, ok, same_code,
}
use dds_rtps.Checks.{max_samples_read}
use dds_rtps.Child.{
  Feed, Outcome, Reply, attribute_error, eof, expect, found, raised, returned, timeout,
}
use dds_rtps.Samples.{basic_check, large_pattern, search_int, size_pattern}

-- One round of the loop: a size outside 1 to 20 ends it, `more` goes on.
range_round : ℕ → Option ℕ → ReturnCode → ReturnCode
range_round samples_read none more = ok
range_round samples_read (some size) more =
    if ltb samples_read (max_samples_read / 2)
    then (if ltb size 1 || ltb 20 size then data_not_correct else more)
    else ok

range_loop : ℕ → Option ℕ → Feed → ReturnCode
range_loop samples_read sub [] = range_round samples_read sub data_not_received
range_loop samples_read sub (r ∷ feed) =
    let more : ReturnCode = elim r [
      | found i text ↦ range_loop (samples_read + 1) (search_int size_pattern text) feed
      | timeout ↦ data_not_received
      | eof ↦ data_not_received
    ] in
    range_round samples_read sub more

unfoldable pub test_size_less_than_20 : Text → Feed → ReturnCode
unfolding range_loop range_round
test_size_less_than_20 text feed =
    if same_code (basic_check text) ok
    then range_loop 0 (search_int size_pattern text) feed
    else basic_check text

-- `sub_string.group(1)` of a search that found nothing is an AttributeError.
size_verdict : (ℕ → Bool) → Option ℕ → Outcome ReturnCode
size_verdict good none = raised attribute_error
size_verdict good (some size) = returned (if good size then ok else data_not_correct)

unfoldable pub test_durability_volatile : Text → Outcome ReturnCode
unfolding size_verdict
test_durability_volatile text =
    if same_code (basic_check text) ok
    then size_verdict (λ size. leb 5 size) (search_int size_pattern text)
    else returned (basic_check text)

unfoldable pub test_durability_transient_local : Text → Outcome ReturnCode
unfolding size_verdict
test_durability_transient_local text =
    if same_code (basic_check text) ok
    then size_verdict (λ size. size == 1) (search_int size_pattern text)
    else returned (basic_check text)

-- The second call of `expect`, after EOF.
after_eof : Reply → ReturnCode
after_eof (found i text) = ok
after_eof timeout = data_not_received
after_eof eof = data_not_received

deadline_reply : Reply → Feed → ReturnCode
deadline_reply (found i text) feed = deadline_missed
deadline_reply timeout feed = data_not_received
deadline_reply eof feed = after_eof (expect feed).0

unfoldable pub test_deadline_missed : Text → Feed → ReturnCode
unfolding deadline_reply after_eof
test_deadline_missed text feed =
    if same_code (basic_check text) ok
    then (let (r, rest) = expect feed in deadline_reply r rest)
    else basic_check text

-- One sample with its additional bytes: 255 counts it, `more` goes on.
large_round : Option ℕ → ReturnCode → ReturnCode
large_round none more = data_not_correct
large_round (some byte) more = if byte == 255 then more else data_not_correct

-- The loop ends with OK once `samples_read` is the maximum.
large_loop : ℕ → Feed → ReturnCode
large_loop samples_read [] =
    if ltb samples_read max_samples_read
    then data_not_received
    else (if samples_read == max_samples_read then ok else data_not_received)
large_loop samples_read (r ∷ feed) =
    let reply : ReturnCode = elim r [
      | found i text ↦
          large_round (search_int large_pattern text) (large_loop (samples_read + 1) feed)
      | timeout ↦ data_not_received
      | eof ↦ data_not_received
    ] in
    if ltb samples_read max_samples_read
    then reply
    else (if samples_read == max_samples_read then ok else data_not_received)

unfoldable pub test_large_data : Text → Feed → ReturnCode
unfolding large_loop large_round
test_large_data text feed =
    if same_code (basic_check text) ok then large_loop 0 feed else basic_check text
