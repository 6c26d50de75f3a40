-- ===== src/Report/Waiting/Order.antt =====
-- In which order the processes of a test return.
use dds_rtps.Prelude.{
  ℕ, Bool, List, [], false, inl, inr, refl, suc, sym, true, zero, ◌∙◌, ◌∷◌, ◌≡◌, ◌⊎◌,
}
use dds_rtps.Report.Waiting.{
  Course, OneOf, Processes, PublisherMove, PublisherStage, Step, SubscriberMove, SubscriberStage,
  all_set, at_head, broken, checking, dismissed, draining, drains, ends_check, further, one_more,
  publisher_is_set, publisher_steps, publishing, raises, reads_eof, repeat, sees_publishers,
  sees_subscribers, standing, started, subscriber_is_set, subscriber_steps, waiting, withdrawn,
  writes_code,
}

abbrev pub any_withdrawn : List PublisherStage → Bool
any_withdrawn [] = false
any_withdrawn (withdrawn ∷ ps) = true
any_withdrawn (publishing ∷ ps) = any_withdrawn ps
any_withdrawn (draining ∷ ps) = any_withdrawn ps

abbrev pub any_dismissed : List SubscriberStage → Bool
any_dismissed [] = false
any_dismissed (dismissed ∷ ss) = true
any_dismissed (checking ∷ ss) = any_dismissed ss
any_dismissed (waiting ∷ ss) = any_dismissed ss
any_dismissed (broken ∷ ss) = any_dismissed ss

-- A subscriber is dismissed only behind all publishers; and a publisher is withdrawn only behind all
-- checks, unless its application has ended by itself.
abbrev pub InOrder : Bool → Processes → Type 0
InOrder may_end s =
    (any_dismissed s.subscribers ≡ true → all_set publisher_is_set s.publishers ≡ true)
    × (may_end ≡ false
        → any_withdrawn s.publishers ≡ true
        → all_set subscriber_is_set s.subscribers ≡ true)

module _ {may_end : Bool} {ss : List SubscriberStage} where
  publisher_stays_set :
      {ps ps' : List PublisherStage}
      → OneOf (PublisherMove may_end ss) ps ps'
      → all_set publisher_is_set ps ≡ true
      → all_set publisher_is_set ps' ≡ true
  publisher_stays_set (at_head writes_code) h = cc h
  publisher_stays_set (at_head (sees_subscribers e)) h = cc h
  publisher_stays_set (at_head (drains e)) h = cc h
  publisher_stays_set (at_head (reads_eof e)) h = cc h
  publisher_stays_set (further {x = withdrawn} o) h = publisher_stays_set o h
  publisher_stays_set (further {x = draining} o) h = cc h
  publisher_stays_set (further {x = publishing} o) h = cc h

  publisher_withdraws :
      {ps ps' : List PublisherStage}
      → OneOf (PublisherMove may_end ss) ps ps'
      → any_withdrawn ps' ≡ true
      → (any_withdrawn ps ≡ true) ⊎ (all_set subscriber_is_set ss ≡ true) ⊎ (may_end ≡ true)
  publisher_withdraws (at_head writes_code) h = inl h
  publisher_withdraws (at_head (sees_subscribers e)) h = inr (inl e)
  publisher_withdraws (at_head (drains e)) h = inl h
  publisher_withdraws (at_head (reads_eof e)) h = inr (inr e)
  publisher_withdraws (further {x = withdrawn} o) h = inl refl
  publisher_withdraws (further {x = draining} o) h = publisher_withdraws o h
  publisher_withdraws (further {x = publishing} o) h = publisher_withdraws o h

module _ {ps : List PublisherStage} where
  subscriber_stays_set :
      {ss ss' : List SubscriberStage}
      → OneOf (SubscriberMove ps) ss ss'
      → all_set subscriber_is_set ss ≡ true
      → all_set subscriber_is_set ss' ≡ true
  subscriber_stays_set (at_head ends_check) h = cc h
  subscriber_stays_set (at_head raises) h = cc h
  subscriber_stays_set (at_head (sees_publishers e)) h = h
  subscriber_stays_set (further {x = checking} o) h = cc h
  subscriber_stays_set (further {x = broken} o) h = cc h
  subscriber_stays_set (further {x = waiting} o) h = subscriber_stays_set o h
  subscriber_stays_set (further {x = dismissed} o) h = subscriber_stays_set o h

  subscriber_leaves :
      {ss ss' : List SubscriberStage}
      → OneOf (SubscriberMove ps) ss ss'
      → any_dismissed ss' ≡ true
      → (any_dismissed ss ≡ true) ⊎ (all_set publisher_is_set ps ≡ true)
  subscriber_leaves (at_head ends_check) h = inl h
  subscriber_leaves (at_head raises) h = inl h
  subscriber_leaves (at_head (sees_publishers e)) h = inr e
  subscriber_leaves (further {x = checking} o) h = subscriber_leaves o h
  subscriber_leaves (further {x = broken} o) h = subscriber_leaves o h
  subscriber_leaves (further {x = waiting} o) h = subscriber_leaves o h
  subscriber_leaves (further {x = dismissed} o) h = inl refl

Step-InOrder :
    {may_end : Bool} {s t : Processes} → Step may_end s t → InOrder may_end s → InOrder may_end t
Step-InOrder (publisher_steps o) (first, second) = (
  λ h. publisher_stays_set o (first h),
  λ never h. elim (publisher_withdraws o h) [
    | inl before ↦ second never before
    | inr (inl ready) ↦ ready
    | inr (inr ended) ↦ cc (sym never ∙ ended)
  ],
)
Step-InOrder (subscriber_steps o) (first, second) = (
  λ h. elim (subscriber_leaves o h) [ inl before ↦ first before | inr ready ↦ ready ],
  λ never h. subscriber_stays_set o (second never h),
)

Course-InOrder_from :
    {may_end : Bool} {k : ℕ} {s t : Processes}
    → Course may_end k s t
    → InOrder may_end s
    → InOrder may_end t
Course-InOrder_from standing h = h
Course-InOrder_from (one_more a c) h = Course-InOrder_from c (Step-InOrder a h)

no_one_withdrawn : (m : ℕ) → any_withdrawn (repeat publishing m) ≡ false
no_one_withdrawn zero = refl
no_one_withdrawn (suc m) = no_one_withdrawn m

no_one_dismissed : (n : ℕ) → any_dismissed (repeat checking n) ≡ false
no_one_dismissed zero = refl
no_one_dismissed (suc n) = no_one_dismissed n

-- At any time of a test, whatever the order of the steps: a subscriber stops its application only
-- after all publishers have set their events, and, as long as no application ends by itself, a
-- publisher stops its application only after every subscriber has ended its check.
pub Course-InOrder :
    (may_end : Bool) (m n k : ℕ) (s : Processes)
    → Course may_end k (started m n) s
    → InOrder may_end s
Course-InOrder may_end m n k s c =
    Course-InOrder_from c
      ((λ h. cc (sym (no_one_dismissed n) ∙ h)), (λ never h. cc (sym (no_one_withdrawn m) ∙ h)))
