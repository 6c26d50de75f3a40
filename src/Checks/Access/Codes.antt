-- ===== src/Checks/Access/Codes.antt =====
-- What the ordered access check returns.
-- The check returns a code that may follow the one that is held.
use dds_rtps.Prelude.{
  Bool, Bool-cases, Option, Text, [], false, if◌then◌else◌, inl, inr, ltb, none, refl, some, subst,
  sym, true, ◌∙◌, ◌∷◌, ◌≡◌, ◌≢◌, ◌⊎◌,
}
use dds_rtps.ReturnCode.{
  ReturnCode, data_not_correct, data_not_received, ok, same_code, same_code_iff,
}
use dds_rtps.Checks.{max_samples_read}
use dds_rtps.Checks.Access.{
  AccessState, access_exit, access_loop, access_round, initial_access, ordered_access_w_instances,
}
use dds_rtps.Checks.Access.Laws.{
  MayEnd, MayFollow, MayFollow-MayEnd, access_output-MayFollow, access_reply-returned,
}
use dds_rtps.Child.{Feed, Outcome, eof, found, returned, timeout}
use dds_rtps.Samples.{basic_check}

abbrev Returns : ReturnCode → Outcome ReturnCode → Type 0
Returns c o = (d : ReturnCode) × (o ≡ returned d) × MayEnd c d

access_exit-Returns :
    (a : AccessState) (more : Outcome ReturnCode)
    → Returns a.produced_code more
    → Returns a.produced_code (access_exit a more)
unfolding access_exit
access_exit-Returns a more r = elim (Bool-cases (ltb max_samples_read a.group_count)) [
  | inl too_many ↦ rw too_many (ended (ltb a.samples_read max_samples_read))
  | inr fewer ↦ rw fewer r
]
  where
    ended :
        (p : Bool)
        → Returns a.produced_code (returned (if p then data_not_received else a.produced_code))
    ended true = (_, refl, inr (inl refl))
    ended false = (_, refl, inr (inr (inl refl)))

access_round-Returns :
    (a : AccessState) (after : Option AccessState) (more : AccessState → Outcome ReturnCode)
    → ((b : AccessState) → after ≡ some b → Returns a.produced_code (more b))
    → Returns a.produced_code (access_round a after more)
unfolding access_round
access_round-Returns a after more h = elim (Bool-cases (ltb a.samples_read max_samples_read)) [
  | inl more_to_read ↦ rw more_to_read (judged after h)
  | inr enough ↦ rw enough (_, refl, inr (inr (inl refl)))
]
  where
    judged :
        (o : Option AccessState)
        → ((b : AccessState) → o ≡ some b → Returns a.produced_code (more b))
        → Returns a.produced_code (elim o [ none ↦ returned data_not_correct | some b ↦ more b ])
    judged none h = (_, refl, inl refl)
    judged (some b) h = h b refl

Returns-MayFollow :
    (c d : ReturnCode) (o : Outcome ReturnCode) → MayFollow c d → Returns d o → Returns c o
Returns-MayFollow c d o f (e, same, m) = (e, same, MayFollow-MayEnd c d e f m)

access_loop-Returns :
    (a : AccessState) (text : Text) (feed : Feed)
    → Returns a.produced_code (access_loop a text feed)
unfolding access_loop
access_loop-Returns a text [] = access_round-Returns a _ _ λ b e. (_, refl, inr (inl refl))
access_loop-Returns a text (eof ∷ feed) =
    access_round-Returns a _ _ λ b e. (_, refl, inr (inl refl))
access_loop-Returns a text (timeout ∷ feed) = access_round-Returns a _ _ λ b e.
    Returns-MayFollow a.produced_code b.produced_code _ (access_output-MayFollow _ _ a b e)
      (_, refl, inr (inr (inl refl)))
access_loop-Returns a text (found i text' ∷ feed) = access_round-Returns a _ _ λ b e.
    let (d, replied, same) = access_reply-returned i _ _ a b e in
    Returns-MayFollow a.produced_code b.produced_code _ (access_output-MayFollow _ _ a b e) (
      rw replied (
        subst (λ c. Returns c (access_exit d (access_loop d text' feed))) same
          (access_exit-Returns d _ (access_loop-Returns d text' feed))))

-- From any point of its loop on, the ordered access check returns, with no exception: DATA_NOT_CORRECT,
-- DATA_NOT_RECEIVED, or the code that it holds there; only if that is OK, which means that no order was
-- decided yet, it may also be one of the two orders. So an order once decided is never turned into the
-- other.
pub access_loop-MayEnd :
    (a : AccessState) (text : Text) (feed : Feed)
    → (c : ReturnCode) × (access_loop a text feed ≡ returned c) × MayEnd a.produced_code c
access_loop-MayEnd = access_loop-Returns

-- The ordered access check returns the code of `basic_check`, if that is not OK, and else one of OK,
-- ORDERED_ACCESS_INSTANCE, ORDERED_ACCESS_TOPIC, DATA_NOT_CORRECT and DATA_NOT_RECEIVED; it never ends
-- by an exception.
pub ordered_access_w_instances-MayEnd :
    (text : Text) (feed : Feed)
    → (c : ReturnCode) × (ordered_access_w_instances text feed ≡ returned c)
      × (((basic_check text ≡ ok) × MayEnd ok c)
          ⊎ ((basic_check text ≢ ok) × (c ≡ basic_check text)))
unfolding ordered_access_w_instances
ordered_access_w_instances-MayEnd text feed = elim (Bool-cases (same_code (basic_check text) ok)) [
  | inl well ↦
      let (c, same, m) = access_loop-Returns initial_access text feed in
      (c, rw well same, inl ((same_code_iff _ _).0 well, m))
  | inr bad ↦
      (basic_check text, rw bad refl, inr (λ e. cc (sym bad ∙ (same_code_iff _ _).1 e), refl))
]
