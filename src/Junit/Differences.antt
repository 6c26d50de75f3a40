-- ===== src/Junit/Differences.antt =====
-- Which tests a comparison lists.
use dds_rtps.Prelude.{
  Bool, Bool-cases, List, Text, [], ap, arith, codes, false, if◌then◌else◌, inl, inr, not, refl,
  sym, text_eq, text_eq_iff, true, ◌&&◌, ◌++◌, ◌||◌, ◌↔◌, ◌∙◌, ◌∷◌, ◌≡◌,
}
use dds_rtps.Junit.{XmlTag, tag_error, tag_failure, tag_passed, tag_skipped}
use dds_rtps.Junit.Comparison.{
  also_in, difference, differences_of, only_in, result_before, tag_text,
}
use dds_rtps.Junit.Results.{
  Attributes, Key, Results, TestResult, has_key, key_of, same_attributes, same_key,
}
use dds_rtps.Prelude.Sorting.{any_of, any_of-sorted, filter_list, sorted}

same_attributes_iff : (a b : Attributes) → (same_attributes a b ≡ true) ↔ (a ≡ b)
unfolding same_attributes
same_attributes_iff [] [] = (λ h. refl, λ h. refl)
same_attributes_iff [] (y ∷ b) = (λ h. cc h, λ h. cc h)
same_attributes_iff (x ∷ a) [] = (λ h. cc h, λ h. cc h)
same_attributes_iff ((k, v) ∷ a) ((j, w) ∷ b) =
    ground (arith, text_eq_iff k j, text_eq_iff v w, same_attributes_iff a b)

pub same_key_iff : (a b : Key) → (same_key a b ≡ true) ↔ (a ≡ b)
unfolding same_key
same_key_iff (s, (n, a)) (s', (n', a')) =
    ground (arith, text_eq_iff s s', text_eq_iff n n', same_attributes_iff a a')

has_key-any_of : (k : Key) (rs : Results) → has_key k rs ≡ any_of (λ r. same_key (key_of r) k) rs
unfolding has_key
has_key-any_of k [] = refl
has_key-any_of k (r ∷ rs) = ap (λ b. same_key (key_of r) k || b) (has_key-any_of k rs)

-- A filter by the key, seen from one key
has_key-filter_list :
    (k : Key) (p : Key → Bool) (rs : Results)
    → has_key k (filter_list (λ r. p (key_of r)) rs) ≡ has_key k rs && p k
unfolding has_key
has_key-filter_list k p [] = refl
has_key-filter_list k p (r ∷ rs) = elim (Bool-cases (same_key (key_of r) k)) [
  | inl e ↦
      let same : p (key_of r) ≡ p k = ap p ((same_key_iff (key_of r) k).0 e) in
      ground (arith, has_key-filter_list k p rs)
  | inr e ↦ ground (arith, has_key-filter_list k p rs)
]

has_key-sorted : (k : Key) (rs : Results) → has_key k (sorted result_before rs) ≡ has_key k rs
has_key-sorted k rs =
    has_key-any_of k (sorted result_before rs)
    ∙ any_of-sorted result_before (λ r. same_key (key_of r) k) rs
    ∙ sym (has_key-any_of k rs)

-- A key is that of a listed result of `only_in` exactly when the first report has it and the second
-- has not, and that of one of `also_in`, whose changes are looked for, exactly when both have it.
pub only_in-also_in :
    (k : Key) (rs others : Results)
    → (has_key k (only_in rs others) ≡ has_key k rs && not (has_key k others))
      × (has_key k (also_in rs others) ≡ has_key k rs && has_key k others)
unfolding only_in also_in
only_in-also_in k rs others = (
  has_key-sorted k (filter_list (λ r. not (has_key (key_of r) others)) rs)
      ∙ has_key-filter_list k (λ j. not (has_key j others)) rs,
  has_key-sorted k (filter_list (λ r. has_key (key_of r) others) rs)
      ∙ has_key-filter_list k (λ j. has_key j others) rs,
)

difference_iff : (f a b : Text) → (difference f a b ≡ []) ↔ (a ≡ b)
unfolding difference
difference_iff f a b = elim (Bool-cases (text_eq a b)) [
  | inl e ↦ rw e (λ h. (text_eq_iff a b).0 e, λ h. refl)
  | inr e ↦ rw e (λ h. cc h, λ h. cc (sym e ∙ (text_eq_iff a b).1 h))
]

append-nil_iff {ℓ} : {A : Type ℓ} (a b : List A) → (a ++ b ≡ []) ↔ ((a ≡ []) × (b ≡ []))
append-nil_iff [] b = (λ h. (refl, h), λ h. h.1)
append-nil_iff (x ∷ a) b = (λ h. cc h, λ h. cc (h.0))

tag_text_inj : (a b : XmlTag) → tag_text a ≡ tag_text b → a ≡ b
unfolding text_eq
tag_text_inj a b e = sym (back a) ∙ ap read_tag e ∙ back b
  where
    read_tag : Text → XmlTag
    read_tag s =
        if text_eq s (codes "passed")
        then tag_passed
        else if text_eq s (codes "failure")
        then tag_failure
        else if text_eq s (codes "error")
        then tag_error
        else tag_skipped

    back : (a : XmlTag) → read_tag (tag_text a) ≡ a
    back tag_passed = refl
    back tag_failure = refl
    back tag_error = refl
    back tag_skipped = refl

if-nil_iff :
    (b : Bool) (f x y : Text) → ((if b then difference f x y else []) ≡ []) ↔ (b ≡ true → x ≡ y)
if-nil_iff true f x y = (λ h t. (difference_iff f x y).0 h, λ h. (difference_iff f x y).1 (h refl))
if-nil_iff false f x y = (λ h t. cc t, λ h. refl)

-- Two results of a test are no change exactly when they have the same status, the same detail if
-- details are asked for, and the same time if times are.
pub differences_of-nil_iff :
    (times details : Bool) (old new : TestResult)
    → (differences_of times details old new ≡ []) ↔ (
        (old.status ≡ new.status)
        × (details ≡ true → old.detail ≡ new.detail)
        × (times ≡ true → old.time ≡ new.time))
unfolding differences_of
differences_of-nil_iff times details old new =
    let second = if details then difference (codes "detail") old.detail new.detail else [] in
    let third = if times then difference (codes "time") old.time new.time else [] in
    let (a, b) =
      append-nil_iff (difference (codes "status") (tag_text old.status) (tag_text new.status))
        (second ++ third) in
    let (c, d) = append-nil_iff second third in
    let (e, f) = difference_iff (codes "status") (tag_text old.status) (tag_text new.status) in
    let (g, h) = if-nil_iff details (codes "detail") old.detail new.detail in
    let (i, j) = if-nil_iff times (codes "time") old.time new.time in
    (
      λ n. (
        tag_text_inj old.status new.status (e ((a n).0)),
        g ((c ((a n).1)).0),
        i ((c ((a n).1)).1),
      ),
      λ k. let (x, y, z) = k in b (f (ap tag_text x), d (h y, j z)),
    )
