-- ===== src/Discovery/Matching.antt =====
-- When test case 5 of the discovery report succeeds.
use dds_rtps.Prelude.{
  Bool, Bool-cases, List, Option, Text, [], arith, false, if◌then◌else◌, inl, inr, none, refl, some,
  subst, sym, text_eq, text_eq_iff, true, ◌++◌, ◌||◌, ◌↔◌, ◌∙◌, ◌∷◌, ◌≡◌, ◌≢◌,
}
use dds_rtps.Discovery.Cases.{
  Issue, is_success, match_case, mismatched_topics, mismatched_types, missing_name, pair_mismatches,
  readers_of, share_one, topic_missing, topics_of, type_missing, types_of, writers_of,
}
use dds_rtps.Discovery.Sedp.{Endpoint}
use dds_rtps.Discovery.Verdicts.{is_success-issues, no_issue, no_issue-append}
use dds_rtps.Texts.{contains}

-- The two lists have a text in common.
abbrev pub HaveCommon : List Text → List Text → Type 0
HaveCommon as' bs = (t : Text) × (contains t as' ≡ true) × (contains t bs ≡ true)

HaveCommon-share_one : (as' bs : List Text) → share_one as' bs ≡ true → HaveCommon as' bs
unfolding share_one contains
HaveCommon-share_one [] bs h = cc h
HaveCommon-share_one (a ∷ as') bs h = elim (Bool-cases (contains a bs)) [
  | inl e ↦ (a, own a (contains a as'), e)
  | inr e ↦
      let (t, m, n) = HaveCommon-share_one as' bs (left (contains a bs) (share_one as' bs) h e) in
      (t, later (text_eq a t) (contains t as') m, n)
]
  where
    own : (a : Text) (b : Bool) → text_eq a a || b ≡ true
    own a b = rw ((text_eq_iff a a).1 refl) refl

    left : (x y : Bool) → x || y ≡ true → x ≡ false → y ≡ true
    left x y p q = ground arith

    later : (x y : Bool) → y ≡ true → x || y ≡ true
    later x y p = ground arith

share_one-HaveCommon : (as' bs : List Text) → HaveCommon as' bs → share_one as' bs ≡ true
unfolding share_one contains
share_one-HaveCommon [] bs (t, m, n) = cc m
share_one-HaveCommon (a ∷ as') bs (t, m, n) = elim (Bool-cases (text_eq a t)) [
  | inl e ↦ rw (subst (λ s. contains s bs ≡ true) (sym ((text_eq_iff a t).0 e)) n) refl
  | inr e ↦ later (contains a bs) (share_one as' bs) (share_one-HaveCommon as' bs (t, rw e at m, n))
]
  where
    later : (x y : Bool) → y ≡ true → x || y ≡ true
    later x y p = ground arith

-- A name that is given is among the names.
abbrev pub IsSeen : Option Text → List Text → Type 0
IsSeen none names = Unit
IsSeen (some []) names = Unit
IsSeen (some (c ∷ t)) names = contains (c ∷ t) names ≡ true

missing_name_iff :
    (issue : Text → Issue) (o : Option Text) (names : List Text)
    → (no_issue (missing_name issue o names) ≡ true) ↔ IsSeen o names
unfolding missing_name no_issue
missing_name_iff issue none names = (λ h. tt, λ h. refl)
missing_name_iff issue (some []) names = (λ h. tt, λ h. refl)
missing_name_iff issue (some (c ∷ t)) names = elim (Bool-cases (contains (c ∷ t) names)) [
  | inl e ↦ rw e (λ h. refl, λ h. refl)
  | inr e ↦ rw e (λ h. cc h, λ h. cc h)
]

-- Where there are writers and readers, they have a topic and a type in common.
abbrev pub AreMatched : List Endpoint → List Endpoint → Type 0
AreMatched ws rs =
    ws ≢ []
    → rs ≢ []
    → HaveCommon (topics_of ws) (topics_of rs) × HaveCommon (types_of ws) (types_of rs)

one_of_two : (b : Bool) (i : Issue) → (no_issue (if b then [] else i ∷ []) ≡ true) ↔ (b ≡ true)
unfolding no_issue
one_of_two true i = (λ h. refl, λ h. refl)
one_of_two false i = (λ h. cc h, λ h. cc h)

pair_mismatches_iff :
    (ws rs : List Endpoint) → (no_issue (pair_mismatches ws rs) ≡ true) ↔ AreMatched ws rs
unfolding pair_mismatches no_issue
pair_mismatches_iff [] rs = (λ h n m. absurd (n refl), λ h. refl)
pair_mismatches_iff (w ∷ ws) [] = (λ h n m. absurd (m refl), λ h. refl)
pair_mismatches_iff (w ∷ ws) (r ∷ rs) =
    let topics = share_one (topics_of (w ∷ ws)) (topics_of (r ∷ rs)) in
    let types = share_one (types_of (w ∷ ws)) (types_of (r ∷ rs)) in
    let (a, b) =
      no_issue-append (if topics then [] else mismatched_topics ∷ [])
        (if types then [] else mismatched_types ∷ []) in
    let (c, d) = one_of_two topics mismatched_topics in
    let (e, f) = one_of_two types mismatched_types in
    (
      λ h n m. (
        HaveCommon-share_one (topics_of (w ∷ ws)) (topics_of (r ∷ rs)) (c ((a h).0)),
        HaveCommon-share_one (types_of (w ∷ ws)) (types_of (r ∷ rs)) (e ((a h).1)),
      ),
      λ h.
          let k = h (λ q. cc q) (λ q. cc q) in
          b (
            d (share_one-HaveCommon (topics_of (w ∷ ws)) (topics_of (r ∷ rs)) k.0),
            f (share_one-HaveCommon (types_of (w ∷ ws)) (types_of (r ∷ rs)) k.1),
          ),
    )

-- Test case 5 succeeds exactly when the topic and the type that are expected, where they are given,
-- are those of some endpoint, and the writers and the readers, where there are both, have a topic in
-- common and a type in common.
pub match_case-success_iff :
    (topic type : Option Text) (eps : List Endpoint)
    → (is_success (match_case topic type eps) ≡ true) ↔ (
        IsSeen topic (topics_of eps)
        × IsSeen type (types_of eps)
        × AreMatched (writers_of eps) (readers_of eps))
unfolding match_case
match_case-success_iff topic type eps =
    let tail =
      missing_name type_missing type (types_of eps)
      ++ pair_mismatches (writers_of eps) (readers_of eps) in
    let (a, b) = no_issue-append (missing_name topic_missing topic (topics_of eps)) tail in
    let (c, d) =
      no_issue-append (missing_name type_missing type (types_of eps))
        (pair_mismatches (writers_of eps) (readers_of eps)) in
    let (e, f) = missing_name_iff topic_missing topic (topics_of eps) in
    let (g, h) = missing_name_iff type_missing type (types_of eps) in
    let (i, j) = pair_mismatches_iff (writers_of eps) (readers_of eps) in
    let same = is_success-issues (match_case topic type eps) in
    (
      λ s. let n = a (sym same ∙ s) in (e (n.0), g ((c (n.1)).0), i ((c (n.1)).1)),
      λ k. let (x, y, z) = k in same ∙ b (f x, d (h y, j z)),
    )
