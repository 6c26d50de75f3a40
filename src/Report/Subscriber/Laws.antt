-- ===== src/Report/Subscriber/Laws.antt =====
-- What a subscriber's process ends with, against the table of its handshake.
use dds_rtps.Prelude.{[], refl, some, suc, zero, ◌∷◌, ◌≡◌}
use dds_rtps.ReturnCode.{
  data_not_received, deadline_missed, filter_not_created, incompatible_qos, reader_not_created,
  sub_unsupported_feature, topic_not_created,
}
use dds_rtps.Child.{Feed, eof, expect, found, returned, timeout, ◌>>=◌}
use dds_rtps.Report.Handshake.{Stage, follow}
use dds_rtps.Report.Subscriber.{Check, data_step, reader_step, run_subscriber_shape_main}

abbrev pub topic_stage : Stage
topic_stage = record { failures = sub_unsupported_feature ∷ []; silence = topic_not_created }

abbrev pub reader_stage : Stage
reader_stage = record {
  failures = filter_not_created ∷ sub_unsupported_feature ∷ [];
  silence = reader_not_created;
}

abbrev pub data_stage : Stage
data_stage = record {
  failures = incompatible_qos ∷ deadline_missed ∷ sub_unsupported_feature ∷ [];
  silence = data_not_received;
}

module _ (check : Check) where
  data_step-follow :
      (feed : Feed)
      → data_step check (expect feed).0 (expect feed).1
        ≡ follow returned
            (λ text rest. check text rest >>= λ c. returned (some c))
            data_stage
            []
            feed
  unfolding data_step
  data_step-follow [] = refl
  data_step-follow (timeout ∷ feed) = refl
  data_step-follow (eof ∷ feed) = refl
  data_step-follow (found zero text ∷ feed) = refl
  data_step-follow (found (suc zero) text ∷ feed) = refl
  data_step-follow (found (suc (suc zero)) text ∷ feed) = refl
  data_step-follow (found (suc (suc (suc zero))) text ∷ feed) = refl
  data_step-follow (found (suc (suc (suc (suc i)))) text ∷ feed) = refl

  reader_step-follow :
      (feed : Feed)
      → reader_step check (expect feed).0 (expect feed).1
        ≡ follow returned
            (λ text rest. check text rest >>= λ c. returned (some c))
            reader_stage
            (data_stage ∷ [])
            feed
  unfolding reader_step
  reader_step-follow [] = refl
  reader_step-follow (timeout ∷ feed) = refl
  reader_step-follow (eof ∷ feed) = refl
  reader_step-follow (found zero text ∷ feed) = data_step-follow feed
  reader_step-follow (found (suc zero) text ∷ feed) = refl
  reader_step-follow (found (suc (suc zero)) text ∷ feed) = refl
  reader_step-follow (found (suc (suc (suc i))) text ∷ feed) = refl

  -- A subscriber's process ends as the table of its three stages tells: the first reply that is not the
  -- pattern that is waited for, which are the topic, the reader and a sample, decides the code. This is
  -- SUB_UNSUPPORTED_FEATURE, FILTER_NOT_CREATED, INCOMPATIBLE_QOS or DEADLINE_MISSED by the index of its
  -- pattern, and TOPIC_NOT_CREATED, READER_NOT_CREATED or DATA_NOT_RECEIVED for a TIMEOUT or EOF. Without
  -- such a reply the check function is called with the text of the third reply and all that follow, and
  -- the process ends as this call does.
  pub run_subscriber_shape_main-follow :
      (feed : Feed)
      → run_subscriber_shape_main check feed
        ≡ follow returned
            (λ text rest. check text rest >>= λ c. returned (some c))
            topic_stage
            (reader_stage ∷ data_stage ∷ [])
            feed
  unfolding run_subscriber_shape_main
  run_subscriber_shape_main-follow [] = refl
  run_subscriber_shape_main-follow (timeout ∷ feed) = refl
  run_subscriber_shape_main-follow (eof ∷ feed) = refl
  run_subscriber_shape_main-follow (found zero text ∷ feed) = reader_step-follow feed
  run_subscriber_shape_main-follow (found (suc zero) text ∷ feed) = refl
  run_subscriber_shape_main-follow (found (suc (suc i)) text ∷ feed) = refl
