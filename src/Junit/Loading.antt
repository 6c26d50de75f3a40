-- ===== src/Junit/Loading.antt =====
-- Which reports `load_results` reads, and what it makes of them.
use dds_rtps.Prelude.{
  All, Bool, Bool-cases, [], ap, append-nil, append_assoc, arith, false, inl, inr, refl, subst, sym,
  ◌++◌, ◌↔◌, ◌∙◌, ◌∷◌, ◌≡◌,
}
use dds_rtps.Child.{>>=-eq-returned, returned, returned_inj, ◌>>=◌}
use dds_rtps.Junit.Results.{
  Attributes, ReportElement, Results, TestResult, add_results, has_key, key_of, load_results,
  results_of, same_key,
}
use dds_rtps.Prelude.Distinct.{AreDistinct, AreDistinct-front, AreDistinct-snoc}

abbrev pub same_result : TestResult → TestResult → Bool
same_result a b = same_key (key_of a) (key_of b)

-- No two results have the same key.
abbrev pub HaveKeys : Results → Type 0
HaveKeys rs = AreDistinct same_result rs

All-has_key :
    (r : TestResult) (rs : Results)
    → has_key (key_of r) rs ≡ false
    → All (λ s. same_result s r ≡ false) rs
unfolding has_key
All-has_key r [] h = tt
All-has_key r (s ∷ rs) h = (ground arith, All-has_key r rs (ground arith))

has_key-All :
    (r : TestResult) (rs : Results)
    → All (λ s. same_result s r ≡ false) rs
    → has_key (key_of r) rs ≡ false
unfolding has_key
has_key-All r [] h = refl
has_key-All r (s ∷ rs) (e, h) = rw e (has_key-All r rs h)

add_results-returned :
    (rs results out : Results)
    → HaveKeys results
    → add_results rs results ≡ returned out
    → (out ≡ results ++ rs) × HaveKeys out
unfolding add_results
add_results-returned [] results out d e =
    (sym (returned_inj e) ∙ sym (append-nil results), subst HaveKeys (returned_inj e) d)
add_results-returned (r ∷ rs) results out d e = elim (Bool-cases (has_key (key_of r) results)) [
  | inl h ↦ cc (rw h at e)
  | inr h ↦
      let (same, distinct_keys) =
        add_results-returned rs (results ++ (r ∷ [])) out
          (AreDistinct-snoc same_result results r d (All-has_key r results h)) (rw h at e) in
      (same ∙ append_assoc results (r ∷ []) rs, distinct_keys)
]

-- The results that have no key in common with those that are there can be added.
add_results-HaveKeys :
    (rs results : Results)
    → HaveKeys (results ++ rs)
    → add_results rs results ≡ returned (results ++ rs)
unfolding add_results
add_results-HaveKeys [] results d = ap (λ l. returned l) (sym (append-nil results))
add_results-HaveKeys (r ∷ rs) results d =
    rw (has_key-All r results (AreDistinct-front same_result results r rs d)) (
      add_results-HaveKeys rs (results ++ (r ∷ []))
        (subst HaveKeys (sym (append_assoc results (r ∷ []) rs)) d)
      ∙ ap (λ l. returned l) (append_assoc results (r ∷ []) rs))

-- A report is read exactly when no two of its test cases have the same key; the results are then those
-- of all its cases, in the order of the document, and the summary is that of its root.
pub load_results_iff :
    (root : ReportElement) (out : Attributes × Results)
    → (load_results root ≡ returned out)
      ↔ (HaveKeys (results_of root.suites) × (out ≡ (root.root_attrib, results_of root.suites)))
unfolding load_results
load_results_iff root out = (
  λ e.
      let (results, made, same) =
        >>=-eq-returned (add_results (results_of root.suites) []) _ out e in
      let (all, d) = add_results-returned (results_of root.suites) [] results tt made in
      (subst HaveKeys all d, sym (returned_inj same) ∙ ap (λ l. (root.root_attrib, l)) all),
  λ h.
      let (d, same) = h in
      ap (λ o. o >>= λ results. returned (root.root_attrib, results))
        (add_results-HaveKeys (results_of root.suites) [] d)
      ∙ ap (λ o. returned o) (sym same),
)
