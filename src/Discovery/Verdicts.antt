-- ===== src/Discovery/Verdicts.antt =====
-- When test case 6 of the discovery report succeeds.
use dds_rtps.Prelude.{
  ℕ, All, Bool, Bool-cases, List, [], ap, arith, codes, false, if◌then◌else◌, inl, inr, ltb, refl,
  sym, text_eq, text_eq_iff, true, ◌&&◌, ◌++◌, ◌↔◌, ◌∙◌, ◌∷◌, ◌≡◌, ◌≢◌, ◌≤◌,
}
use dds_rtps.Discovery.Cases.{
  Case, Issue, durability_level, incompatible_durability, incompatible_reliability, is_reader,
  is_success, is_writer, qos_against, qos_case, qos_errors, qos_pair, readers_of, writers_of,
}
use dds_rtps.Discovery.Sedp.{Endpoint}
use dds_rtps.Prelude.Lists.{All-map}
use dds_rtps.Prelude.Sorting.{filter_list}

unfoldable pub no_issue : List Issue → Bool
no_issue [] = true
no_issue (i ∷ is) = false

pub no_issue-append :
    (is js : List Issue)
    → (no_issue (is ++ js) ≡ true) ↔ ((no_issue is ≡ true) × (no_issue js ≡ true))
unfolding no_issue
no_issue-append [] js = (λ h. (refl, h), λ h. h.1)
no_issue-append (i ∷ is) js = (λ h. cc h, λ h. cc (h.0))

-- The values of a filtered list
All-filter_list {ℓ κ} :
    {A : Type ℓ} (P : A → Type κ) (p : A → Bool) (xs : List A)
    → (All P (filter_list p xs)) ↔ (All (λ x. p x ≡ true → P x) xs)
All-filter_list P p [] = (λ h. tt, λ h. tt)
All-filter_list P p (x ∷ xs) =
    let ih = All-filter_list P p xs in
    elim (Bool-cases (p x)) [
      | inl e ↦ rw e (λ h. (λ t. h.0, ih.0 h.1), λ h. (h.0 refl, ih.1 h.1))
      | inr e ↦ rw e (λ h. (λ t. cc t, ih.0 h), λ h. ih.1 h.1)
    ]

-- What the QoS of a writer and of a reader have to fulfil: a reader that asks for reliability is not
-- offered best effort, and the writer's durability is at least the reader's.
pub record IsCompatible (w r : Endpoint) : Type 0 where
  pub reliable : r.reliability ≡ codes "RELIABLE" → w.reliability ≢ codes "BEST_EFFORT"
  pub durable : durability_level r.durability ≤ durability_level w.durability

pub no_issue-if :
    (b : Bool) (i : Issue) → (no_issue (if b then i ∷ [] else []) ≡ true) ↔ (b ≡ false)
unfolding no_issue
no_issue-if true i = (λ h. cc h, λ h. cc h)
no_issue-if false i = (λ h. refl, λ h. refl)

reliability_iff :
    (w r : Endpoint)
    → (text_eq w.reliability (codes "BEST_EFFORT") && text_eq r.reliability (codes "RELIABLE")
        ≡ false)
      ↔ (r.reliability ≡ codes "RELIABLE" → w.reliability ≢ codes "BEST_EFFORT")
reliability_iff w r =
    clash _ _ _ _ (text_eq_iff w.reliability (codes "BEST_EFFORT"))
      (text_eq_iff r.reliability (codes "RELIABLE"))
  where
    clash :
        (a b : Bool) (P Q : Type 0)
        → ((a ≡ true) ↔ P)
        → ((b ≡ true) ↔ Q)
        → (a && b ≡ false) ↔ (Q → P → ⊥)
    clash true true P Q h k = (λ e. cc e, λ n. elim (n (k.0 refl) (h.0 refl)) [ ])
    clash true false P Q h k = (λ e q p. cc (k.1 q), λ n. refl)
    clash false b P Q h k = (λ e q p. cc (h.1 p), λ n. refl)

ltb-false : (a b : ℕ) → (ltb a b ≡ false) ↔ (b ≤ a)
ltb-false a b = ground arith

qos_pair_iff : (w r : Endpoint) → (no_issue (qos_pair w r) ≡ true) ↔ IsCompatible w r
unfolding qos_pair
qos_pair_iff w r =
    let best =
      text_eq w.reliability (codes "BEST_EFFORT") && text_eq r.reliability (codes "RELIABLE") in
    let short = ltb (durability_level w.durability) (durability_level r.durability) in
    let (a, b) =
      no_issue-append (if best then incompatible_reliability ∷ [] else [])
        (if short then incompatible_durability w.durability r.durability ∷ [] else []) in
    let (c, d) = no_issue-if best incompatible_reliability in
    let (e, f) = no_issue-if short (incompatible_durability w.durability r.durability) in
    let (g, h) = reliability_iff w r in
    let (i, j) = ltb-false (durability_level w.durability) (durability_level r.durability) in
    (
      λ n. record { reliable = g (c ((a n).0)); durable = i (e ((a n).1)) },
      λ k. b (d (h k.reliable), f (j k.durable)),
    )

-- An empty list of issues stands for no issue in each of its parts.
concat_iff {ℓ κ} :
    {A : Type ℓ} (P : A → Type κ) (f : A → List Issue) (g : List A → List Issue)
    → (g [] ≡ [])
    → ((x : A) (xs : List A) → g (x ∷ xs) ≡ f x ++ g xs)
    → ((x : A) → (no_issue (f x) ≡ true) ↔ P x)
    → (xs : List A) → (no_issue (g xs) ≡ true) ↔ All P xs
unfolding no_issue
concat_iff P f g e s h [] = (λ n. tt, λ n. ap no_issue e)
concat_iff P f g e s h (x ∷ xs) =
    let (a, b) = no_issue-append (f x) (g xs) in
    let (c, d) = h x in
    let (i, j) = concat_iff P f g e s h xs in
    rw (s x xs) (λ n. (c ((a n).0), i ((a n).1)), λ k. b (d k.0, j k.1))

qos_errors_iff :
    (ws rs : List Endpoint)
    → (no_issue (qos_errors ws rs) ≡ true) ↔ All (λ w. All (λ r. IsCompatible w r) rs) ws
unfolding qos_errors qos_against
qos_errors_iff ws rs =
    concat_iff (λ w. All (λ r. IsCompatible w r) rs) (λ w. qos_against w rs)
      (λ ws'. qos_errors ws' rs) refl (λ w ws'. refl)
      (λ w.
        concat_iff (λ r. IsCompatible w r) (λ r. qos_pair w r) (λ rs'. qos_against w rs') refl
          (λ r rs'. refl) (λ r. qos_pair_iff w r) rs)
      ws

pub is_success-issues : (c : Case) → is_success c ≡ no_issue c.issues
unfolding no_issue
is_success-issues c = issues_lem c.issues
  where
    issues_lem :
        (is : List Issue) → elim is as (λ l. Bool) [ [] ↦ true | i ∷ js ↦ false ] ≡ no_issue is
    issues_lem [] = refl
    issues_lem (i ∷ js) = refl

-- Test case 6 succeeds exactly when each endpoint that is a writer and each that is a reader are
-- compatible: not best effort against a reader that wants reliability, and a durability of at least
-- the reader's.
pub qos_case-success_iff :
    (eps : List Endpoint)
    → (is_success (qos_case eps) ≡ true)
      ↔ All (λ w. is_writer w ≡ true → All (λ r. is_reader r ≡ true → IsCompatible w r) eps) eps
unfolding qos_case writers_of readers_of
qos_case-success_iff eps =
    let (a, b) = qos_errors_iff (filter_list is_writer eps) (filter_list is_reader eps) in
    let (c, d) =
      All-filter_list (λ w. All (λ r. IsCompatible w r) (filter_list is_reader eps)) is_writer
        eps in
    let back = λ (h : is_success (qos_case eps) ≡ true).
      c (a (sym (is_success-issues (qos_case eps)) ∙ h)) in
    (
      λ h.
          All-map _ _ eps (λ w q t. (All-filter_list (λ r. IsCompatible w r) is_reader eps).0 (q t))
            (back h),
      λ h.
          is_success-issues (qos_case eps)
          ∙ b (
              d (
                All-map _ _ eps
                  (λ w q t. (All-filter_list (λ r. IsCompatible w r) is_reader eps).1 (q t)) h)),
    )
