-- ===== src/Report/Publisher/Stages.antt =====
-- The code of a publisher's process, against the table of its handshake.
use dds_rtps.Prelude.{
  Bool-cases, Text, [], codes, if◌then◌else◌, inl, inr, refl, some, suc, zero, ◌∷◌, ◌≡◌,
}
use dds_rtps.ReturnCode.{
  data_not_sent, deadline_missed, incompatible_qos, ok, pub_unsupported_feature, reader_not_matched,
  topic_not_created, writer_not_created,
}
use dds_rtps.Child.{Feed, eof, expect, found, timeout}
use dds_rtps.Report.{Produced, has_option}
use dds_rtps.Report.Handshake.{Stage, follow}
use dds_rtps.Report.Publisher.{
  first_sample_step, matching_step, max_samples_saved, run_publisher_shape_main, sending_loop,
  writer_step,
}

abbrev pub publisher_topic_stage : Stage
publisher_topic_stage = record {
  failures = pub_unsupported_feature ∷ [];
  silence = topic_not_created;
}

abbrev pub writer_stage : Stage
writer_stage = record { failures = pub_unsupported_feature ∷ []; silence = writer_not_created }

abbrev pub matching_stage : Stage
matching_stage = record {
  failures = incompatible_qos ∷ pub_unsupported_feature ∷ [];
  silence = reader_not_matched;
}

abbrev pub sample_stage : Stage
sample_stage = record {
  failures = deadline_missed ∷ pub_unsupported_feature ∷ [];
  silence = data_not_sent;
}

first_sample_step-follow :
    (feed : Feed)
    → (first_sample_step (expect feed).0 (expect feed).1).code
      ≡ follow
          (λ c. c)
          (λ text rest. (sending_loop max_samples_saved [] [] text rest).code)
          sample_stage
          []
          feed
unfolding first_sample_step
first_sample_step-follow [] = refl
first_sample_step-follow (timeout ∷ feed) = refl
first_sample_step-follow (eof ∷ feed) = refl
first_sample_step-follow (found zero text ∷ feed) = refl
first_sample_step-follow (found (suc zero) text ∷ feed) = refl
first_sample_step-follow (found (suc (suc zero)) text ∷ feed) = refl
first_sample_step-follow (found (suc (suc (suc i))) text ∷ feed) = refl

-- What a matched publisher's process goes on with
abbrev pub matched_code : Text → Feed → Produced
unfolding has_option sending_loop
matched_code parameters feed =
    if has_option (codes "-w") parameters
    then follow (λ c. c) (λ text rest. (sending_loop max_samples_saved [] [] text rest).code)
        sample_stage [] feed
    else some ok

module _ (parameters : Text) where
  matching_step-follow :
      (feed : Feed)
      → (matching_step parameters (expect feed).0 (expect feed).1).code
        ≡ follow (λ c. c) (λ text rest. matched_code parameters rest) matching_stage [] feed
  unfolding matching_step matched_code
  matching_step-follow [] = refl
  matching_step-follow (timeout ∷ feed) = refl
  matching_step-follow (eof ∷ feed) = refl
  matching_step-follow (found zero text ∷ feed) =
      elim (Bool-cases (has_option (codes "-w") parameters)) [
        | inl saving ↦ rw saving (first_sample_step-follow feed)
        | inr silent ↦ rw silent refl
      ]
  matching_step-follow (found (suc zero) text ∷ feed) = refl
  matching_step-follow (found (suc (suc zero)) text ∷ feed) = refl
  matching_step-follow (found (suc (suc (suc i))) text ∷ feed) = refl

  writer_step-follow :
      (feed : Feed)
      → (writer_step parameters (expect feed).0 (expect feed).1).code
        ≡ follow
            (λ c. c)
            (λ text rest. matched_code parameters rest)
            writer_stage
            (matching_stage ∷ [])
            feed
  unfolding writer_step
  writer_step-follow [] = refl
  writer_step-follow (timeout ∷ feed) = refl
  writer_step-follow (eof ∷ feed) = refl
  writer_step-follow (found zero text ∷ feed) = matching_step-follow feed
  writer_step-follow (found (suc zero) text ∷ feed) = refl
  writer_step-follow (found (suc (suc i)) text ∷ feed) = refl

-- The code of a publisher's process is that of the table of its stages: the first reply that is not the
-- pattern that is waited for, which are the topic, the writer and a match, decides it. It is
-- PUB_UNSUPPORTED_FEATURE or INCOMPATIBLE_QOS by the index of its pattern, and TOPIC_NOT_CREATED,
-- WRITER_NOT_CREATED or READER_NOT_MATCHED for a TIMEOUT or EOF. A matched publisher without the
-- option -w ends with OK; one with it waits for a first sample, with DEADLINE_MISSED,
-- PUB_UNSUPPORTED_FEATURE or, for a TIMEOUT or EOF, DATA_NOT_SENT if there is none, and else has the
-- code of the loop over 500 samples that starts with the text of this reply and those that follow.
pub run_publisher_shape_main-follow :
    (parameters : Text) (feed : Feed)
    → (run_publisher_shape_main parameters feed).code
      ≡ follow
          (λ c. c)
          (λ text rest. matched_code parameters rest)
          publisher_topic_stage
          (writer_stage ∷ matching_stage ∷ [])
          feed
unfolding run_publisher_shape_main
run_publisher_shape_main-follow parameters [] = refl
run_publisher_shape_main-follow parameters (timeout ∷ feed) = refl
run_publisher_shape_main-follow parameters (eof ∷ feed) = refl
run_publisher_shape_main-follow parameters (found zero text ∷ feed) =
    writer_step-follow parameters feed
run_publisher_shape_main-follow parameters (found (suc zero) text ∷ feed) = refl
run_publisher_shape_main-follow parameters (found (suc (suc i)) text ∷ feed) = refl
