-- ===== src/Report/Subscriber.antt =====
-- `run_subscriber_shape_main`: the code that a subscriber's process produces. What the check
-- function raises ends the process with no code.
pub mod Laws
use dds_rtps.Prelude.{Text, none, some, suc, zero}
use dds_rtps.ReturnCode.{
  ReturnCode, data_not_received, deadline_missed, filter_not_created, incompatible_qos,
  reader_not_created, sub_unsupported_feature, topic_not_created,
}
use dds_rtps.Child.{Feed, Outcome, Reply, eof, expect, found, returned, timeout, ◌>>=◌}
use dds_rtps.Report.{Produced}

-- A check function, as it is called with a matched sample and the replies that follow. The two
-- lists of queues that it is given as well are read by none of those of the test suite.
abbrev pub Check : Type 0
Check = Text → Feed → Outcome ReturnCode

-- Step 4 and 5: data, an incompatible QoS or a missed deadline; then the check function.
unfoldable pub data_step : Check → Reply → Feed → Outcome Produced
data_step check (found zero text) feed = check text feed >>= λ c. returned (some c)
data_step check (found (suc zero) text) feed = returned (some incompatible_qos)
data_step check (found (suc (suc zero)) text) feed = returned (some deadline_missed)
data_step check (found (suc (suc (suc zero))) text) feed = returned (some sub_unsupported_feature)
data_step check (found (suc (suc (suc (suc i)))) text) feed = returned none
data_step check timeout feed = returned (some data_not_received)
data_step check eof feed = returned (some data_not_received)

-- Step 3: the reader is created.
unfoldable pub reader_step : Check → Reply → Feed → Outcome Produced
unfolding data_step
reader_step check (found zero text) feed = data_step check (expect feed).0 (expect feed).1
reader_step check (found (suc zero) text) feed = returned (some filter_not_created)
reader_step check (found (suc (suc zero)) text) feed = returned (some sub_unsupported_feature)
reader_step check (found (suc (suc (suc i))) text) feed = returned none
reader_step check timeout feed = returned (some reader_not_created)
reader_step check eof feed = returned (some reader_not_created)

-- Step 2: the topic is created.
unfoldable pub subscriber_topic_step : Check → Reply → Feed → Outcome Produced
unfolding reader_step
subscriber_topic_step check (found zero text) feed =
    reader_step check (expect feed).0 (expect feed).1
subscriber_topic_step check (found (suc zero) text) feed = returned (some sub_unsupported_feature)
subscriber_topic_step check (found (suc (suc i)) text) feed = returned none
subscriber_topic_step check timeout feed = returned (some topic_not_created)
subscriber_topic_step check eof feed = returned (some topic_not_created)

unfoldable pub run_subscriber_shape_main : Check → Feed → Outcome Produced
unfolding subscriber_topic_step
run_subscriber_shape_main check feed = subscriber_topic_step check (expect feed).0 (expect feed).1
