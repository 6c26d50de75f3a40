-- ===== src/Report/Verdict/Laws.antt =====
-- The verdict of a test on the codes that its processes produce.
use dds_rtps.Prelude.{
  Bool, Bool-cases, List, [], ap, arith, false, if◌then◌else◌, inl, inr, length, none, refl, some,
  some_inj, sym, true, ◌&&◌, ◌↔◌, ◌∙◌, ◌∷◌, ◌≡◌, ◌≢◌, ◌⊎◌,
}
use dds_rtps.ReturnCode.{
  ReturnCode, pub_unsupported_feature, same_code_iff, sub_unsupported_feature,
}
use dds_rtps.Child.{Outcome, raised, returned, ◌>>=◌}
use dds_rtps.Report.{Produced}
use dds_rtps.Report.Verdict.{
  Process, Row, all_expected, any_unsupported, is_expected, is_unsupported_code, judge,
  result_failed, result_ok, result_skipped, table,
}

abbrev pub codes_of : List ReturnCode → List Produced
codes_of [] = []
codes_of (c ∷ cs) = some c ∷ codes_of cs

-- A code is somewhere in a list.
abbrev pub Among : Produced → List Produced → Type 0
Among c [] = ⊥
Among c (d ∷ ds) = (c ≡ d) ⊎ Among c ds

abbrev pub IsReported : List Produced → Type 0
IsReported produced =
    Among (some pub_unsupported_feature) produced ⊎ Among (some sub_unsupported_feature) produced

abbrev pub HasCodes : List Produced → Type 0
HasCodes [] = Unit
HasCodes (none ∷ produced) = ⊥
HasCodes (some c ∷ produced) = HasCodes produced

is_expected_iff : (e : ReturnCode) (c : Produced) → (is_expected e c ≡ true) ↔ (c ≡ some e)
unfolding is_expected
is_expected_iff e none = ((λ h. cc h), (λ h. cc h))
is_expected_iff e (some c) =
    (λ h. ap some (sym ((same_code_iff e c).0 h)), λ h. (same_code_iff e c).1 (sym (some_inj h)))

and-first : (a b : Bool) → (a && b) ≡ true → a ≡ true
and-first true b h = refl
and-first false b h = h

and-second : (a b : Bool) → (a && b) ≡ true → b ≡ true
and-second true b h = h
and-second false b h = cc h

-- One row for each entity, with its two codes.
abbrev pub Tells : List Process → List ReturnCode → List Produced → List Row → Type 0
Tells [] expected produced rows = rows ≡ []
Tells (p ∷ ps) expected produced [] = ⊥
Tells (p ∷ ps) [] produced (r ∷ rows) = ⊥
Tells (p ∷ ps) (e ∷ expected) [] (r ∷ rows) = ⊥
Tells (p ∷ ps) (e ∷ expected) (c ∷ produced) (r ∷ rows) =
    (r.entity ≡ p)
    × (r.expected_code ≡ e)
    × (some r.code_produced ≡ c)
    × Tells ps expected produced rows

all_expected_iff :
    (expected : List ReturnCode) (produced : List Produced)
    → length expected ≡ length produced
    → (b : Bool) × (all_expected expected produced ≡ returned b)
      × ((b ≡ true) ↔ (produced ≡ codes_of expected))
unfolding all_expected
all_expected_iff [] [] h = (true, refl, ((λ e. refl), (λ e. refl)))
all_expected_iff [] (c ∷ produced) h = absurd (omega arith)
all_expected_iff (e ∷ expected) [] h = absurd (omega arith)
all_expected_iff (e ∷ expected) (c ∷ produced) h =
    let (b, hit, same) = all_expected_iff expected produced (omega arith) in
    (
      is_expected e c && b,
      rw (hit, all_expected) refl,
      (
        λ both.
            both_equal ((is_expected_iff e c).0 (and-first (is_expected e c) b both))
              (same.0 (and-second (is_expected e c) b both)),
        λ eq. rw ((is_expected_iff e c).1 (cc eq)) (same.1 (cc eq)),
      ),
    )
  where
    both_equal :
        c ≡ some e → produced ≡ codes_of expected → c ∷ produced ≡ some e ∷ codes_of expected
    both_equal h h' = cc (h, h')

HasCodes-table :
    (ps : List Process) (expected : List ReturnCode) (produced : List Produced)
    → length ps ≡ length produced
    → length expected ≡ length produced
    → HasCodes produced
    → (rows : List Row) × (table ps expected produced ≡ returned rows)
      × Tells ps expected produced rows
unfolding table
HasCodes-table [] [] [] h h' cs = ([], refl, refl)
HasCodes-table [] expected (c ∷ produced) h h' cs = absurd (omega arith)
HasCodes-table [] (e ∷ expected) [] h h' cs = absurd (omega arith)
HasCodes-table (p ∷ ps) expected [] h h' cs = absurd (omega arith)
HasCodes-table (p ∷ ps) [] (c ∷ produced) h h' cs = absurd (omega arith)
HasCodes-table (p ∷ ps) (e ∷ expected) (none ∷ produced) h h' cs = absurd cs
HasCodes-table (p ∷ ps) (e ∷ expected) (some c ∷ produced) h h' cs =
    let (rows, hit, told) = HasCodes-table ps expected produced (omega arith) (omega arith) cs in
    (
      record { entity = p; expected_code = e; code_produced = c } ∷ rows,
      rw (hit, table) refl,
      (refl, refl, refl, told),
    )

any_unsupported-IsReported :
    (produced : List Produced) → (any_unsupported produced ≡ true) ↔ IsReported produced
unfolding any_unsupported is_unsupported_code
any_unsupported-IsReported [] = ground arith
any_unsupported-IsReported (none ∷ produced) = ground (arith, any_unsupported-IsReported produced)
any_unsupported-IsReported (some c ∷ produced) = ground (
  arith,
  any_unsupported-IsReported produced,
  same_code_iff c pub_unsupported_feature,
  same_code_iff c sub_unsupported_feature,
)

-- With as many codes as expected ones, a test passes exactly if each process produced the code that
-- was expected of it.
pub judge-result_ok_iff :
    (ps : List Process) (expected : List ReturnCode) (produced : List Produced)
    → length expected ≡ length produced
    → (judge ps expected produced ≡ returned result_ok) ↔ (produced ≡ codes_of expected)
unfolding judge
judge-result_ok_iff ps expected produced h =
    let (b, hit, same) = all_expected_iff expected produced h in rw (hit, judge) (by_match b same)
  where
    by_match :
        (b : Bool)
        → ((b ≡ true) ↔ (produced ≡ codes_of expected))
        → ((if b
              then returned result_ok
              else (if any_unsupported produced
                  then (table ps expected produced >>= λ rows. returned (result_skipped rows))
                  else (table ps expected produced >>= λ rows. returned (result_failed rows))))
            ≡ returned result_ok)
          ↔ (produced ≡ codes_of expected)
    by_match true same = ((λ e. same.0 refl), (λ e. refl))
    by_match false same = (
      λ e. absurd (not_passed (any_unsupported produced) (table ps expected produced) e),
      λ e. cc (same.1 e),
    )
      where
        not_passed :
            (u : Bool) (t : Outcome (List Row))
            → (if u
                then (t >>= λ rows. returned (result_skipped rows))
                else (t >>= λ rows. returned (result_failed rows)))
              ≢ returned result_ok
        not_passed true (returned rows) e = cc e
        not_passed true (raised x) e = cc e
        not_passed false (returned rows) e = cc e
        not_passed false (raised x) e = cc e

-- A test whose processes all produced a code, but not the codes expected, gets a table with a row
-- for each process, its expected and its produced code. It is skipped if one of the produced codes
-- is PUB_UNSUPPORTED_FEATURE or SUB_UNSUPPORTED_FEATURE, and failed if none is.
pub judge-ne-result_ok :
    (ps : List Process) (expected : List ReturnCode) (produced : List Produced)
    → length ps ≡ length produced
    → length expected ≡ length produced
    → HasCodes produced
    → produced ≢ codes_of expected
    → (rows : List Row) × Tells ps expected produced rows
      × (((judge ps expected produced ≡ returned (result_skipped rows)) × IsReported produced)
          ⊎ ((judge ps expected produced ≡ returned (result_failed rows))
              × (¬ IsReported produced)))
unfolding judge
judge-ne-result_ok ps expected produced h h' cs differ =
    let (b, hit, same) = all_expected_iff expected produced h' in
    let (rows, made, told) = HasCodes-table ps expected produced h h' cs in
    let wrong : b ≡ false = ground arith in
    (
      rows,
      told,
      elim (Bool-cases (any_unsupported produced)) [
        | inl there ↦ inl (
          rw (hit, wrong, there, made, judge) refl,
          (any_unsupported-IsReported produced).0 there,
        )
        | inr missing_one ↦ inr (
          rw (hit, wrong, missing_one, made, judge) refl,
          λ r. cc (sym missing_one ∙ (any_unsupported-IsReported produced).1 r),
        )
      ],
    )
