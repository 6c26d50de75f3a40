-- ===== src/Report/Waiting/Blocked.antt =====
-- What becomes of a test in which a check function raises an exception.
use dds_rtps.Prelude.{
  ℕ, Bool, List, [], ap, arith, false, length, refl, suc, sym, true, zero, ◌+◌, ◌||◌, ◌∙◌, ◌∷◌, ◌≡◌,
  ◌≢◌,
}
use dds_rtps.Report.Waiting.{
  Course, OneOf, Processes, PublisherMove, PublisherStage, Step, SubscriberMove, SubscriberStage,
  all_set, at_head, broken, checking, dismissed, draining, drains, ends_check, further, one_more,
  publisher_steps, publishing, raises, reads_eof, sees_publishers, sees_subscribers, standing,
  subscriber_is_set, subscriber_steps, waiting, withdrawn, writes_code,
}
use dds_rtps.Report.Waiting.Laws.{is_broken}

abbrev pub any_broken : List SubscriberStage → Bool
any_broken [] = false
any_broken (x ∷ ss) = is_broken x || any_broken ss

-- No event of a subscriber that is broken is set, and it stays broken.
module _ {ps : List PublisherStage} where
  any_broken-stays :
      {ss ss' : List SubscriberStage}
      → OneOf (SubscriberMove ps) ss ss'
      → any_broken ss ≡ true
      → any_broken ss' ≡ true
  any_broken-stays (at_head ends_check) h = h
  any_broken-stays (at_head raises) h = refl
  any_broken-stays (at_head (sees_publishers e)) h = h
  any_broken-stays (further {x = broken} o) h = refl
  any_broken-stays (further {x = checking} o) h = any_broken-stays o h
  any_broken-stays (further {x = waiting} o) h = any_broken-stays o h
  any_broken-stays (further {x = dismissed} o) h = any_broken-stays o h

any_broken-unset :
    (ss : List SubscriberStage) → any_broken ss ≡ true → all_set subscriber_is_set ss ≡ false
any_broken-unset [] h = cc h
any_broken-unset (broken ∷ ss) h = refl
any_broken-unset (checking ∷ ss) h = refl
any_broken-unset (waiting ∷ ss) h = any_broken-unset ss h
any_broken-unset (dismissed ∷ ss) h = any_broken-unset ss h

abbrev pub count_withdrawn : List PublisherStage → ℕ
count_withdrawn [] = 0
count_withdrawn (withdrawn ∷ ps) = 1 + count_withdrawn ps
count_withdrawn (publishing ∷ ps) = count_withdrawn ps
count_withdrawn (draining ∷ ps) = count_withdrawn ps

module _ {ss : List SubscriberStage} where
  count_withdrawn-stays :
      {ps ps' : List PublisherStage}
      → all_set subscriber_is_set ss ≡ false
      → OneOf (PublisherMove false ss) ps ps'
      → count_withdrawn ps' ≡ count_withdrawn ps
  count_withdrawn-stays h (at_head writes_code) = refl
  count_withdrawn-stays h (at_head (drains e)) = refl
  count_withdrawn-stays h (at_head (sees_subscribers e)) = cc (sym h ∙ e)
  count_withdrawn-stays h (at_head (reads_eof e)) = cc e
  count_withdrawn-stays h (further {x = withdrawn} o) = ap (λ n. 1 + n) (count_withdrawn-stays h o)
  count_withdrawn-stays h (further {x = draining} o) = count_withdrawn-stays h o
  count_withdrawn-stays h (further {x = publishing} o) = count_withdrawn-stays h o

-- A publisher that is not withdrawn, with a broken subscriber, can take a step.
draining_moves :
    (ss : List SubscriberStage)
    → any_broken ss ≡ true
    → (ps : List PublisherStage) → count_withdrawn ps ≢ length ps
    → (ps' : List PublisherStage) × OneOf (PublisherMove false ss) ps ps'
draining_moves ss h [] k = absurd (k refl)
draining_moves ss h (publishing ∷ ps) k = (_, at_head writes_code)
draining_moves ss h (draining ∷ ps) k = (_, at_head (drains (any_broken-unset ss h)))
draining_moves ss h (withdrawn ∷ ps) k =
    let (ps', o) = draining_moves ss h ps (λ e. k (omega (arith, e))) in (_, further o)

-- Once the check function of a subscriber has raised an exception, and as long as no application ends
-- by itself, no publisher that waits is withdrawn any more, however many steps the processes take; and
-- where one is left, there is always another step.
pub Course-blocked :
    (k : ℕ) (s t : Processes)
    → Course false k s t
    → any_broken s.subscribers ≡ true
    → (count_withdrawn t.publishers ≡ count_withdrawn s.publishers)
      × (count_withdrawn t.publishers ≢ length t.publishers → (u : Processes) × Step false t u)
Course-blocked zero s t standing h = (
  refl,
  λ k. let (ps, o) = draining_moves s.subscribers h s.publishers k in (_, publisher_steps o),
)
Course-blocked (suc n) s t (one_more (publisher_steps o) c) h =
    let (same, more) = Course-blocked n _ t c h in
    (same ∙ count_withdrawn-stays (any_broken-unset s.subscribers h) o, more)
Course-blocked (suc n) s t (one_more (subscriber_steps o) c) h =
    Course-blocked n _ t c (any_broken-stays o h)
