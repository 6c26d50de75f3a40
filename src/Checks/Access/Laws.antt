-- ===== src/Checks/Access/Laws.antt =====
-- The codes of the ordered access check on every branch.
-- The code that the loop holds: none decided yet, or one of the two orders.
use mathlib.Core.Option
use dds_rtps.Prelude.{
  ℕ, Bool, Bool-cases, List, Option, Text, [], ap, false, if◌then◌else◌, inl, inr, ltb, none, refl,
  some, some_inj, subst, suc, sym, text_eq, true, zero, ◌&&◌, ◌++◌, ◌+◌, ◌∙◌, ◌∷◌, ◌≡◌, ◌≢◌, ◌⊎◌,
}
use dds_rtps.ReturnCode.{
  ReturnCode, data_not_correct, data_not_received, ok, ordered_access_instance,
  ordered_access_topic, same_code, same_code_iff,
}
use dds_rtps.Checks.Access.{
  AccessState, access_output, access_reply, access_sample, behavior, code_or, compare_color,
  count_first, differs, judge_set, mismatch_tolerance, new_set,
}
use dds_rtps.Checks.Ordering.{fresh}
use dds_rtps.Child.{returned, ◌>>=◌}
use dds_rtps.Texts.{contains}

abbrev pub IsHeld : ReturnCode → Type 0
IsHeld c = (c ≡ ok) ⊎ (c ≡ ordered_access_instance) ⊎ (c ≡ ordered_access_topic)

-- A code that may follow one that is held: the same, or any, if none was decided.
abbrev pub MayFollow : ReturnCode → ReturnCode → Type 0
MayFollow c d = (d ≡ c) ⊎ ((c ≡ ok) × IsHeld d)

-- The code that the check may return when one is held.
abbrev pub MayEnd : ReturnCode → ReturnCode → Type 0
MayEnd c d =
    (d ≡ data_not_correct)
    ⊎ (d ≡ data_not_received)
    ⊎ (d ≡ c)
    ⊎ ((c ≡ ok) × ((d ≡ ordered_access_instance) ⊎ (d ≡ ordered_access_topic)))

pub MayFollow-MayEnd : (c d e : ReturnCode) → MayFollow c d → MayEnd d e → MayEnd c e
MayFollow-MayEnd c d e (inl same) m = subst (λ x. MayEnd x e) same m
MayFollow-MayEnd c d e (inr (none_yet, held)) (inl bad) = inl bad
MayFollow-MayEnd c d e (inr (none_yet, held)) (inr (inl lost)) = inr (inl lost)
MayFollow-MayEnd c d e (inr (none_yet, inl same)) (inr (inr (inl equal))) =
    inr (inr (inl (equal ∙ same ∙ sym none_yet)))
MayFollow-MayEnd c d e (inr (none_yet, inr order)) (inr (inr (inl equal))) =
    inr (inr (inr (none_yet, either order)))
  where
    either :
        (d ≡ ordered_access_instance) ⊎ (d ≡ ordered_access_topic)
        → (e ≡ ordered_access_instance) ⊎ (e ≡ ordered_access_topic)
    either (inl h) = inl (equal ∙ h)
    either (inr h) = inr (equal ∙ h)
MayFollow-MayEnd c d e (inr (none_yet, held)) (inr (inr (inr (_, order)))) =
    inr (inr (inr (none_yet, order)))

-- What one output does to the code.
compare_color-code :
    (o : Option Text) (c : Text) (a : AccessState)
    → (compare_color o c a).produced_code ≡ a.produced_code
compare_color-code none c a = refl
compare_color-code (some p) c a = elim (Bool-cases (text_eq c p)) [
  | inl same ↦ rw same refl
  | inr other ↦ rw other refl
]

decide-MayFollow :
    (c : ReturnCode)
    → c ≡ ok
    → (p q : Bool)
    → MayFollow c (
        code_or c (
          if p
          then some ordered_access_instance
          else (if q then some ordered_access_topic else none)))
decide-MayFollow c e true q = inr (e, inr (inl refl))
decide-MayFollow c e false true = inr (e, inr (inr refl))
decide-MayFollow c e false false = inl refl

judge_set-MayFollow :
    (a b : AccessState) → judge_set a ≡ some b → MayFollow a.produced_code b.produced_code
unfolding judge_set
judge_set-MayFollow a b e = elim (Bool-cases (same_code a.produced_code ok)) [
  | inl undecided ↦
      subst (λ x. MayFollow a.produced_code x)
        (ap (λ x. x.produced_code) (some_inj (rw (undecided, judge_set) at e)))
        (decide-MayFollow a.produced_code ((same_code_iff _ _).0 undecided) _ _)
  | inr decided ↦ inl (
      kept (differs a.produced_code (behavior a)) (ltb mismatch_tolerance a.mismatch_count)
        (rw (decided, judge_set) at e))
]
  where
    kept :
        (p q : Bool)
        → (if p
            then (if q then none else some (record a { mismatch_count = a.mismatch_count + 1 }))
            else some a)
          ≡ some b
        → b.produced_code ≡ a.produced_code
    kept true true h = cc h
    kept true false h = ap (λ x. x.produced_code) (sym (some_inj h))
    kept false q h = ap (λ x. x.produced_code) (sym (some_inj h))

new_set-MayFollow :
    (a b : AccessState) → new_set a ≡ some b → MayFollow a.produced_code b.produced_code
unfolding new_set
new_set-MayFollow a b e =
    from_set (a.samples_printed && ltb 5 (a.equal_count + a.different_count)) e
  where
    from_judged :
        (o : Option AccessState)
        → ((d : AccessState) → o ≡ some d → MayFollow a.produced_code d.produced_code)
        → Option.map {A = AccessState} (λ d. record d { equal_count = 0; different_count = 0 }) o
          ≡ some b
        → MayFollow a.produced_code b.produced_code
    from_judged none h e = cc e
    from_judged (some d) h e =
        subst (λ x. MayFollow a.produced_code x) (ap (λ x. x.produced_code) (some_inj e)) (h d refl)

    from_set :
        (p : Bool)
        → Option.map {A = AccessState}
            (λ d. record d { equal_count = 0; different_count = 0 })
            (if p then judge_set a else some a)
          ≡ some b
        → MayFollow a.produced_code b.produced_code
    from_set true e = from_judged (judge_set a) (judge_set-MayFollow a) e
    from_set false e =
        from_judged (some a) (λ d h. inl (ap (λ x. x.produced_code) (sym (some_inj h)))) e

pub access_output-MayFollow :
    (o : Option Text) (message : Bool) (a b : AccessState)
    → access_output o message a ≡ some b
    → MayFollow a.produced_code b.produced_code
unfolding access_output access_sample
access_output-MayFollow (some c) message a b e =
    inl (ap (λ x. x.produced_code) (sym (some_inj e)) ∙ compare_color-code a.previous_color c _)
access_output-MayFollow none true a b e = new_set-MayFollow a b e
access_output-MayFollow none false a b e = inl (ap (λ x. x.produced_code) (sym (some_inj e)))

-- A color that was read is in the list.
compare_color-colors :
    (o : Option Text) (c : Text) (a : AccessState)
    → (compare_color o c a).instance_color ≡ a.instance_color
compare_color-colors none c a = refl
compare_color-colors (some p) c a = elim (Bool-cases (text_eq c p)) [
  | inl same ↦ rw same refl
  | inr other ↦ rw other refl
]

entered : (c : Text) (cs : List Text) → (if contains c cs then cs else cs ++ c ∷ []) ≢ []
unfolding contains
entered c [] e = cc e
entered c (d ∷ cs) e = elim (Bool-cases (contains c (d ∷ cs))) [
  | inl known ↦ cc (rw (known, contains) at e)
  | inr fresh ↦ cc (rw (fresh, contains) at e)
]

pub access_reply-returned :
    (i : ℕ) (o : Option Text) (message : Bool) (a b : AccessState)
    → access_output o message a ≡ some b
    → (d : AccessState) × (access_reply i o b ≡ returned d) × (d.produced_code ≡ b.produced_code)
unfolding access_reply access_output access_sample count_first
access_reply-returned (suc zero) o message a b e = (_, refl, refl)
access_reply-returned (suc (suc i)) o message a b e = (_, refl, refl)
access_reply-returned zero none message a b e = (_, refl, refl)
access_reply-returned zero (some c) message a b e = counted b.instance_color λ empty.
    entered c a.instance_color (
      sym (compare_color-colors a.previous_color c _)
      ∙ ap (λ x. x.instance_color) (some_inj e)
      ∙ empty)
  where
    counted :
        (cs : List Text)
        → cs ≢ []
        → (d : AccessState) × (count_first (some c) cs b.samples_read
              >>= (λ n. returned (record b { samples_read = n }))
            ≡ returned d)
          × (d.produced_code ≡ b.produced_code)
    counted [] h = absurd (h refl)
    counted (f ∷ cs) h = (_, refl, refl)
