-- ===== src/Checks/NotAlive/Colors.antt =====
-- The colors that the two lists hold after a part of the notices.
use dds_rtps.Prelude.{
  Bool, Bool-cases, List, Text, [], ap, arith, false, if◌then◌else◌, inl, inr, refl, subst, sym,
  text_eq, text_eq_iff, true, ◌++◌, ◌||◌, ◌∙◌, ◌∷◌, ◌≡◌,
}
use dds_rtps.Checks.NotAlive.{ColorLists, Notice, a_report, a_sample, add, nothing, take_notice}
use dds_rtps.Checks.NotAlive.Laws.{reported, sampled, take_all}
use dds_rtps.Texts.{contains}

contains-append :
    (c d : Text) (ds : List Text) → contains c (ds ++ d ∷ []) ≡ (contains c ds || text_eq d c)
unfolding contains
contains-append c d [] = ground arith
contains-append c d (e ∷ ds) = ground (arith, contains-append c d ds)

contains-add :
    (c d : Text) (ds : List Text) → contains c (add d ds) ≡ (contains c ds || text_eq d c)
contains-add c d ds = elim (Bool-cases (contains d ds)) [
  | inl there ↦ rw there (elim (Bool-cases (text_eq d c)) [
    | inl same ↦ known (subst (λ x. contains x ds ≡ true) ((text_eq_iff d c).0 same) there)
    | inr other ↦ rw other (or-no (contains c ds))
  ])
  | inr absent ↦ rw absent (contains-append c d ds)
]
  where
    known : contains c ds ≡ true → contains c ds ≡ (contains c ds || text_eq d c)
    known h = rw h refl

    or-no : (b : Bool) → b ≡ (b || false)
    or-no true = refl
    or-no false = refl

or_assoc : (a b c : Bool) → ((a || b) || c) ≡ (a || (b || c))
or_assoc true b c = refl
or_assoc false b c = refl

or_no : (b : Bool) → b ≡ (b || false)
or_no true = refl
or_no false = refl

-- The two lists after one notice.
take_notice-seen :
    (c : Text) (n : Notice) (cs : ColorLists)
    → contains c (take_notice n cs).0.seen ≡ (contains c cs.seen || contains c (sampled (n ∷ [])))
unfolding take_notice contains
take_notice-seen c (a_sample d) cs =
    contains-add c d cs.seen ∙ ap (λ b. contains c cs.seen || b) (or_no (text_eq d c))
take_notice-seen c (a_report d) cs = elim (Bool-cases (contains d cs.gone)) [
  | inl there ↦ rw there (or_no (contains c cs.seen))
  | inr absent ↦ rw absent (or_no (contains c cs.seen))
]
take_notice-seen c nothing cs = or_no (contains c cs.seen)

take_notice-gone :
    (c : Text) (n : Notice) (cs : ColorLists)
    → contains c (take_notice n cs).0.gone ≡ (contains c cs.gone || contains c (reported (n ∷ [])))
unfolding take_notice contains
take_notice-gone c (a_sample d) cs = or_no (contains c cs.gone)
take_notice-gone c (a_report d) cs = elim (Bool-cases (contains d cs.gone)) [
  | inl there ↦ rw there (added there) ∙ ap (λ b. contains c cs.gone || b) (or_no (text_eq d c))
  | inr absent ↦ rw absent (added absent) ∙ ap (λ b. contains c cs.gone || b) (or_no (text_eq d c))
]
  where
    added :
        {b : Bool}
        → contains d cs.gone ≡ b
        → contains c (if b then cs.gone else cs.gone ++ d ∷ [])
          ≡ (contains c cs.gone || text_eq d c)
    added h =
        subst
          (λ x.
            contains c (if x then cs.gone else cs.gone ++ d ∷ [])
            ≡ (contains c cs.gone || text_eq d c))
          h (contains-add c d cs.gone)
take_notice-gone c nothing cs = or_no (contains c cs.gone)

contains-sampled :
    (c : Text) (n : Notice) (ns : List Notice)
    → contains c (sampled (n ∷ ns)) ≡ (contains c (sampled (n ∷ [])) || contains c (sampled ns))
unfolding contains
contains-sampled c (a_sample d) ns = sym (or_assoc (text_eq d c) false _)
contains-sampled c (a_report d) ns = refl
contains-sampled c nothing ns = refl

contains-reported :
    (c : Text) (n : Notice) (ns : List Notice)
    → contains c (reported (n ∷ ns)) ≡ (contains c (reported (n ∷ [])) || contains c (reported ns))
unfolding contains
contains-reported c (a_sample d) ns = refl
contains-reported c (a_report d) ns = sym (or_assoc (text_eq d c) false _)
contains-reported c nothing ns = refl

-- And after a part of the notices.
pub take_all-seen :
    (c : Text) (ns : List Notice) (cs : ColorLists)
    → contains c (take_all ns cs).seen ≡ (contains c cs.seen || contains c (sampled ns))
unfolding contains
take_all-seen c [] cs = or_no (contains c cs.seen)
take_all-seen c (n ∷ ns) cs =
    take_all-seen c ns (take_notice n cs).0
    ∙ ap (λ b. b || contains c (sampled ns)) (take_notice-seen c n cs)
    ∙ or_assoc (contains c cs.seen) _ _
    ∙ ap (λ b. contains c cs.seen || b) (sym (contains-sampled c n ns))

pub take_all-gone :
    (c : Text) (ns : List Notice) (cs : ColorLists)
    → contains c (take_all ns cs).gone ≡ (contains c cs.gone || contains c (reported ns))
unfolding contains
take_all-gone c [] cs = or_no (contains c cs.gone)
take_all-gone c (n ∷ ns) cs =
    take_all-gone c ns (take_notice n cs).0
    ∙ ap (λ b. b || contains c (reported ns)) (take_notice-gone c n cs)
    ∙ or_assoc (contains c cs.gone) _ _
    ∙ ap (λ b. contains c cs.gone || b) (sym (contains-reported c n ns))
