-- ===== src/Report/Publisher.antt =====
-- `run_publisher_shape_main`: the code that a publisher's process produces, and the queues that it
-- fills. The functions follow the nested calls of `expect`; an index is one of the list of patterns.
pub mod Laws
pub mod Codes
pub mod Stages
use mathlib.Core.Option
use dds_rtps.Prelude.{
  ℕ, List, Option, Text, [], codes, if◌then◌else◌, none, some, suc, zero, ◌++◌, ◌∷◌,
}
use dds_rtps.ReturnCode.{
  data_not_correct, data_not_sent, deadline_missed, incompatible_qos, ok, pub_unsupported_feature,
  reader_not_matched, topic_not_created, writer_not_created,
}
use dds_rtps.Child.{Feed, Reply, eof, expect, found, timeout}
use dds_rtps.Regex.{Pattern, chr, digit, many, search_text}
use dds_rtps.Report.{Produced, has_option}

-- MAX_SAMPLES_SAVED
abbrev pub max_samples_saved : ℕ
max_samples_saved = 500

-- `[0-9]+ [0-9]+ \[[0-9]+\]`
abbrev pub sent_pattern : Pattern
sent_pattern = many digit ∷ chr b' ' ∷ many digit ∷ chr b' ' ∷ chr b'[' ∷ many digit ∷ chr b']' ∷ []

-- `pub_string.group(0)`
unfoldable pub search_sent : Text → Option Text
unfolding search_text
search_sent text = Option.map (λ m. m.whole) (search_text sent_pattern text)

-- What a publisher leaves behind: its code and what it put into the two queues.
pub record Published : Type 0 where
  pub code : Produced
  pub samples_sent : List Text
  pub last_sample_saved : List Text

abbrev pub only : Produced → Published
only c = record { code = c; samples_sent = []; last_sample_saved = [] }

-- The patterns behind the first sample: a sample, a missed deadline, `not supported`.
abbrev pub sending_code : Reply → Produced
sending_code (found zero text) = some ok
sending_code (found (suc zero) text) = some deadline_missed
sending_code (found (suc (suc zero)) text) = some pub_unsupported_feature
sending_code (found (suc (suc (suc i))) text) = none
sending_code timeout = some data_not_sent
sending_code eof = some data_not_sent

-- The end of the loop: `last_sample_saved.put(last_sample)`.
abbrev pub finish : Produced → List Text → Text → Published
finish c sent last_sample = record {
  code = c;
  samples_sent = sent;
  last_sample_saved = last_sample ∷ [];
}

-- `for x in range(0, n)`; the code is OK, the first queue holds `sent`, and `text` is
-- `child_pub.before + child_pub.after`.
unfoldable pub sending_loop : ℕ → List Text → Text → Text → Feed → Published
sending_loop zero sent last_sample text feed = finish (some ok) sent last_sample
sending_loop (suc n) sent last_sample text [] = elim (search_sent text) [
  | none ↦ finish (some data_not_correct) sent last_sample
  | some s ↦ finish (some data_not_sent) (sent ++ s ∷ []) s
]
sending_loop (suc n) sent last_sample text (r ∷ feed) = elim (search_sent text) [
  | none ↦ finish (some data_not_correct) sent last_sample
  | some s ↦ elim r [
    | found i text' ↦ elim i [
      | zero ↦ sending_loop n (sent ++ s ∷ []) s text' feed
      | suc j ↦ finish (sending_code (found (suc j) text')) (sent ++ s ∷ []) s
    ]
    | timeout ↦ finish (some data_not_sent) (sent ++ s ∷ []) s
    | eof ↦ finish (some data_not_sent) (sent ++ s ∷ []) s
  ]
]

-- Step 5: the first sample.
unfoldable pub first_sample_step : Reply → Feed → Published
unfolding sending_loop
first_sample_step (found zero text) feed = sending_loop max_samples_saved [] [] text feed
first_sample_step (found (suc i) text) feed = only (sending_code (found (suc i) text))
first_sample_step timeout feed = only (some data_not_sent)
first_sample_step eof feed = only (some data_not_sent)

-- Step 4: the writer matches a reader.
unfoldable pub matching_step : Text → Reply → Feed → Published
unfolding first_sample_step
matching_step parameters (found zero text) feed =
    if has_option (codes "-w") parameters
    then first_sample_step (expect feed).0 (expect feed).1
    else only (some ok)
matching_step parameters (found (suc zero) text) feed = only (some incompatible_qos)
matching_step parameters (found (suc (suc zero)) text) feed = only (some pub_unsupported_feature)
matching_step parameters (found (suc (suc (suc i))) text) feed = only none
matching_step parameters timeout feed = only (some reader_not_matched)
matching_step parameters eof feed = only (some reader_not_matched)

-- Step 3: the writer is created.
unfoldable pub writer_step : Text → Reply → Feed → Published
unfolding matching_step
writer_step parameters (found zero text) feed =
    matching_step parameters (expect feed).0 (expect feed).1
writer_step parameters (found (suc zero) text) feed = only (some pub_unsupported_feature)
writer_step parameters (found (suc (suc i)) text) feed = only none
writer_step parameters timeout feed = only (some writer_not_created)
writer_step parameters eof feed = only (some writer_not_created)

-- Step 2: the topic is created.
unfoldable pub topic_step : Text → Reply → Feed → Published
unfolding writer_step
topic_step parameters (found zero text) feed =
    writer_step parameters (expect feed).0 (expect feed).1
topic_step parameters (found (suc zero) text) feed = only (some pub_unsupported_feature)
topic_step parameters (found (suc (suc i)) text) feed = only none
topic_step parameters timeout feed = only (some topic_not_created)
topic_step parameters eof feed = only (some topic_not_created)

unfoldable pub run_publisher_shape_main : Text → Feed → Published
unfolding topic_step
run_publisher_shape_main parameters feed = topic_step parameters (expect feed).0 (expect feed).1
