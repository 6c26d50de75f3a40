-- ===== src/Report/Publisher/Codes.antt =====
-- The codes and the queues of a publisher's process on every branch.
-- The second queue is empty, and then so is the first, or holds the last sample of the first.
use dds_rtps.Prelude.{
  ℕ, Bool-cases, List, Text, [], arith, codes, inl, inr, length, refl, some, subst, suc, sym, take,
  true, zero, ◌<◌, ◌↔◌, ◌∷◌, ◌≡◌, ◌≤◌, ◌⊎◌,
}
use dds_rtps.ReturnCode.{ok}
use dds_rtps.Child.{Feed, Reply, eof, expect, found, timeout}
use dds_rtps.Report.{has_option}
use dds_rtps.Report.Publisher.{
  Published, first_sample_step, matching_step, max_samples_saved, run_publisher_shape_main,
  sending_loop, topic_step, writer_step,
}
use dds_rtps.Report.Publisher.Laws.{
  last_or, sample_texts, samples_in, sending_loop-last_sample_saved, sending_loop-ok_iff,
  sending_loop-samples_sent,
}

abbrev pub KeepsLast : Published → Type 0
KeepsLast p =
    ((p.samples_sent ≡ []) × (p.last_sample_saved ≡ []))
    ⊎ ((length p.samples_sent ≤ max_samples_saved)
        × (p.last_sample_saved ≡ last_or [] p.samples_sent ∷ []))

length-take {ℓ} : {A : Type ℓ} (n : ℕ) (xs : List A) → length (take n xs) ≤ n
length-take zero xs = omega arith
length-take (suc n) [] = omega arith
length-take (suc n) (x ∷ xs) = omega (arith, length-take n xs)

sending_loop-KeepsLast :
    (text : Text) (feed : Feed) → KeepsLast (sending_loop max_samples_saved [] [] text feed)
sending_loop-KeepsLast text feed = inr (
  subst (λ l. length l ≤ max_samples_saved)
      (sym (sending_loop-samples_sent max_samples_saved [] [] text feed))
      (length-take max_samples_saved (samples_in (sample_texts text feed))),
  sending_loop-last_sample_saved max_samples_saved [] [] text feed refl,
)

first_sample_step-KeepsLast : (r : Reply) (feed : Feed) → KeepsLast (first_sample_step r feed)
unfolding first_sample_step
first_sample_step-KeepsLast (found zero text) feed = sending_loop-KeepsLast text feed
first_sample_step-KeepsLast (found (suc i) text) feed = inl (refl, refl)
first_sample_step-KeepsLast timeout feed = inl (refl, refl)
first_sample_step-KeepsLast eof feed = inl (refl, refl)

module _ (parameters : Text) where
  matching_step-KeepsLast : (r : Reply) (feed : Feed) → KeepsLast (matching_step parameters r feed)
  unfolding matching_step
  matching_step-KeepsLast (found zero text) feed =
      elim (Bool-cases (has_option (codes "-w") parameters)) [
        | inl saving ↦ rw saving (first_sample_step-KeepsLast (expect feed).0 (expect feed).1)
        | inr silent ↦ rw silent (inl (refl, refl))
      ]
  matching_step-KeepsLast (found (suc zero) text) feed = inl (refl, refl)
  matching_step-KeepsLast (found (suc (suc zero)) text) feed = inl (refl, refl)
  matching_step-KeepsLast (found (suc (suc (suc i))) text) feed = inl (refl, refl)
  matching_step-KeepsLast timeout feed = inl (refl, refl)
  matching_step-KeepsLast eof feed = inl (refl, refl)

  writer_step-KeepsLast : (r : Reply) (feed : Feed) → KeepsLast (writer_step parameters r feed)
  unfolding writer_step
  writer_step-KeepsLast (found zero text) feed =
      matching_step-KeepsLast (expect feed).0 (expect feed).1
  writer_step-KeepsLast (found (suc zero) text) feed = inl (refl, refl)
  writer_step-KeepsLast (found (suc (suc i)) text) feed = inl (refl, refl)
  writer_step-KeepsLast timeout feed = inl (refl, refl)
  writer_step-KeepsLast eof feed = inl (refl, refl)

  topic_step-KeepsLast : (r : Reply) (feed : Feed) → KeepsLast (topic_step parameters r feed)
  unfolding topic_step
  topic_step-KeepsLast (found zero text) feed =
      writer_step-KeepsLast (expect feed).0 (expect feed).1
  topic_step-KeepsLast (found (suc zero) text) feed = inl (refl, refl)
  topic_step-KeepsLast (found (suc (suc i)) text) feed = inl (refl, refl)
  topic_step-KeepsLast timeout feed = inl (refl, refl)
  topic_step-KeepsLast eof feed = inl (refl, refl)

-- Whatever a publisher's process meets, it puts either nothing into its two queues, or at most 500
-- samples into the first and exactly one text, the last of these samples, into the second.
pub run_publisher_shape_main-KeepsLast :
    (parameters : Text) (feed : Feed) → KeepsLast (run_publisher_shape_main parameters feed)
unfolding run_publisher_shape_main
run_publisher_shape_main-KeepsLast parameters feed =
    topic_step-KeepsLast parameters (expect feed).0 (expect feed).1

-- Where the writer is matched and prints a first sample, and the option -w is given, a publisher's
-- first queue holds the samples of the matched texts, up to the first text that has none and at most
-- 500, and the code is OK exactly if 500 samples are saved and one more text is matched after them.
pub run_publisher_shape_main-saves :
    (parameters a b c text : Text) (feed : Feed)
    → has_option (codes "-w") parameters ≡ true
    → let p =
        run_publisher_shape_main parameters
          (found 0 a ∷ found 0 b ∷ found 0 c ∷ found 0 text ∷ feed) in
      (p.samples_sent ≡ take max_samples_saved (samples_in (sample_texts text feed)))
      × ((p.code ≡ some ok) ↔ (
          max_samples_saved ≤ length (samples_in (sample_texts text feed))
          × max_samples_saved < length (sample_texts text feed)))
unfolding run_publisher_shape_main topic_step writer_step matching_step first_sample_step
run_publisher_shape_main-saves parameters a b c text feed saving = rw saving (
  sending_loop-samples_sent max_samples_saved [] [] text feed,
  sending_loop-ok_iff max_samples_saved [] [] text feed,
)
