-- ===== src/Checks/NotAlive/Verdicts.antt =====
-- What OK of the two checks shows.
use dds_rtps.Prelude.{
  Bool, Bool-cases, List, Text, [], codes, false, inl, inr, length, refl, subst, sym, text_eq,
  text_eq_iff, true, ◌&&◌, ◌++◌, ◌==◌, ◌∙◌, ◌∷◌, ◌≡◌,
}
use dds_rtps.ReturnCode.{ok}
use dds_rtps.Checks.NotAlive.{
  ColorLists, Notice, check_not_alive, includes, not_alive_verdict, same_set,
  test_disposing_w_instances, test_unregistering_w_instances,
}
use dds_rtps.Checks.NotAlive.Colors.{take_all-gone, take_all-seen}
use dds_rtps.Checks.NotAlive.Laws.{
  Stops, not_alive_loop-Told, notices_in, reported, sampled, take_all,
}
use dds_rtps.Child.{Feed, returned}
use dds_rtps.Samples.{basic_check}
use dds_rtps.Samples.Laws.{checked-eq-ok}
use dds_rtps.Texts.{contains}

includes-contains :
    (cs ds : List Text) (c : Text)
    → includes cs ds ≡ true
    → contains c cs ≡ true
    → contains c ds ≡ true
unfolding includes contains
includes-contains [] ds c h h' = cc h'
includes-contains (d ∷ cs) ds c h h' = elim (Bool-cases (text_eq d c)) [
  | inl same ↦
      subst (λ x. contains x ds ≡ true) ((text_eq_iff d c).0 same) (first (contains d ds) h)
  | inr other ↦ includes-contains cs ds c (second (contains d ds) h) (rw other at h')
]
  where
    first : (b : Bool) → (b && includes cs ds) ≡ true → b ≡ true
    first true e = refl
    first false e = e

    second : (b : Bool) → (b && includes cs ds) ≡ true → includes cs ds ≡ true
    second true e = e
    second false e = cc e

same_set-contains :
    (cs ds : List Text) (c : Text) → same_set cs ds ≡ true → contains c cs ≡ contains c ds
unfolding same_set includes
same_set-contains cs ds c h =
    same_bool (contains c cs) (contains c ds) (includes-contains cs ds c (left (includes cs ds) h))
      (includes-contains ds cs c (right (includes cs ds) h))
  where
    left : (b : Bool) → (b && includes ds cs) ≡ true → b ≡ true
    left true e = refl
    left false e = e

    right : (b : Bool) → (b && includes ds cs) ≡ true → includes ds cs ≡ true
    right true e = e
    right false e = cc e

    same_bool : (a b : Bool) → (a ≡ true → b ≡ true) → (b ≡ true → a ≡ true) → a ≡ b
    same_bool true b f g = sym (f refl)
    same_bool false true f g = g refl
    same_bool false false f g = refl

-- A list that is not empty has a member.
some_member : (cs : List Text) → length cs == 0 ≡ false → (c : Text) × (contains c cs ≡ true)
unfolding contains
some_member [] h = cc h
some_member (c ∷ cs) h = (c, rw ((text_eq_iff c c).1 refl) refl)

not_alive_verdict-seen :
    (cs : ColorLists) → not_alive_verdict cs ≡ ok → (c : Text) × (contains c cs.seen ≡ true)
not_alive_verdict-seen cs e = elim (Bool-cases (length cs.seen == 0)) [
  | inl none_seen ↦ cc (rw none_seen at e)
  | inr some_seen ↦ some_member cs.seen some_seen
]

not_alive_verdict-eq-ok :
    (cs : ColorLists)
    → not_alive_verdict cs ≡ ok
    → (c : Text) → contains c cs.seen ≡ contains c cs.gone
not_alive_verdict-eq-ok cs e c = elim (Bool-cases (length cs.seen == 0)) [
  | inl none_seen ↦ cc (rw none_seen at e)
  | inr some_seen ↦ elim (Bool-cases (same_set cs.seen cs.gone)) [
    | inl same ↦ same_set-contains cs.seen cs.gone c same
    | inr other ↦ cc (rw (some_seen, other) at e)
  ]
]

-- A first part of the outputs, which is all of them, has at least 500, or ends with a report: some color
-- has a sample in it, and a color has a sample exactly if it has a report.
pub record AllReported (outputs : List Notice) : Type 0 where
  pub read : List Notice
  pub rest : List Notice
  pub split : outputs ≡ read ++ rest
  pub stops : Stops 0 read rest
  pub color : Text
  pub has_sample : contains color (sampled read) ≡ true
  pub agree : (c : Text) → contains c (sampled read) ≡ contains c (reported read)

module _ (state : Text) where
  check_not_alive-AllReported :
      (text : Text) (feed : Feed)
      → check_not_alive state text feed ≡ returned ok
      → AllReported (notices_in state text feed)
  unfolding check_not_alive contains
  check_not_alive-AllReported text feed e =
      let (_, ran) = checked-eq-ok (basic_check text) _ e in
      let t = not_alive_loop-Told state (record { seen = []; gone = [] }) 0 text feed ran in
      let some_color =
        not_alive_verdict-seen (take_all t.read (record { seen = []; gone = [] })) t.judged in
      record {
        read = t.read;
        rest = t.rest;
        split = t.split;
        stops = t.stops;
        color = some_color.0;
        has_sample =
            sym (take_all-seen some_color.0 t.read (record { seen = []; gone = [] }))
            ∙ some_color.1;
        agree = λ c.
            sym (take_all-seen c t.read (record { seen = []; gone = [] }))
            ∙ not_alive_verdict-eq-ok (take_all t.read (record { seen = []; gone = [] })) t.judged c
            ∙ take_all-gone c t.read (record { seen = []; gone = [] });
      }

-- The unregistering and the disposing check return OK only if the outputs up to the first TIMEOUT or
-- EOF begin with a part, which is all of them, or has at least 500, or ends with a report, that holds a
-- sample and in which the colors of the samples are exactly the colors that are reported in the state of
-- the check, NOT_ALIVE_NO_WRITERS or NOT_ALIVE_DISPOSED.
pub not_alive_checks-AllReported :
    (text : Text) (feed : Feed)
    → ((test_unregistering_w_instances text feed ≡ returned ok)
        → AllReported (notices_in (codes "NOT_ALIVE_NO_WRITERS_INSTANCE_STATE") text feed))
      × ((test_disposing_w_instances text feed ≡ returned ok)
          → AllReported (notices_in (codes "NOT_ALIVE_DISPOSED_INSTANCE_STATE") text feed))
unfolding test_unregistering_w_instances test_disposing_w_instances
not_alive_checks-AllReported text feed = (
  check_not_alive-AllReported (codes "NOT_ALIVE_NO_WRITERS_INSTANCE_STATE") text feed,
  check_not_alive-AllReported (codes "NOT_ALIVE_DISPOSED_INSTANCE_STATE") text feed,
)
