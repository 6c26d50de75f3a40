-- ===== src/Report/Selection/Laws.antt =====
-- The choice of the test cases and the completion of their parameters.
use dds_rtps.Prelude.{
  ℕ, Bool, Bool-cases, List, Option, Option-cases, Text, [], ap, arith, codes, false, if◌then◌else◌,
  inl, inr, ltb, none, not, refl, some, sym, true, ◌&&◌, ◌++◌, ◌∙◌, ◌∷◌, ◌≡◌, ◌≤◌, ◌⊎◌,
}
use dds_rtps.ReturnCode.{name}
use dds_rtps.Child.{>>=-eq-returned, Feed, returned, returned_inj}
use dds_rtps.Prelude.Sorting.{filter_list}
use dds_rtps.Report.Selection.{
  Options, Poll, TestEntry, add_announcement, add_representation, case_name, complete_element,
  is_processed, map_list, next_alive, run_entries, run_entry, still_alive, stop_process,
}
use dds_rtps.Report.Verdict.{CaseResult}
use dds_rtps.Texts.{contains, in_text, lower}
use dds_rtps.Texts.Laws.{in_text-append, in_text-append_right}

option_inside : in_text (codes "-x ") (codes " -x ") ≡ true
unfolding in_text
option_inside = refl

represented :
    (o : Options) (element : Text) → in_text (codes "-x ") (add_representation o element) ≡ true
unfolding add_representation
represented o element = elim (Bool-cases (in_text (codes "-x ") element)) [
  | inl there ↦ rw there there
  | inr absent ↦ rw absent (
      in_text-append (codes "-x ") (element ++ codes " -x ") o.data_representation
        (in_text-append_right (codes "-x ") element (codes " -x ") option_inside))
]

add_representation-same :
    (o : Options) (element : Text)
    → in_text (codes "-x ") element ≡ true
    → add_representation o element ≡ element
unfolding add_representation
add_representation-same o element h = rw h refl

abbrev announced : Options → Text → Bool
announced o element =
    ltb 0 o.periodic_announcement_ms
    && (not (in_text (codes "--periodic-announcement ") element)
        && (in_text (codes "connext") (lower o.publisher_path) && in_text (codes "-P") element))

announcement_option :
    in_text (codes "--periodic-announcement ") (codes " --periodic-announcement ") ≡ true
unfolding in_text
announcement_option = refl

announcement-inside :
    (element rest : Text)
    → in_text
        (codes "--periodic-announcement ")
        (element ++ codes " --periodic-announcement " ++ rest)
      ≡ true
announcement-inside element rest =
    in_text-append (codes "--periodic-announcement ") (element ++ codes " --periodic-announcement ")
      rest
      (in_text-append_right (codes "--periodic-announcement ") element
        (codes " --periodic-announcement ") announcement_option)

add_announcement-keeps :
    (o : Options) (p element : Text)
    → in_text p element ≡ true
    → in_text p (add_announcement o element) ≡ true
unfolding add_announcement
add_announcement-keeps o p element h = elim (Bool-cases (announced o element)) [
  | inl due ↦ rw due (
      in_text-append p (element ++ codes " --periodic-announcement ") _
        (in_text-append p element (codes " --periodic-announcement ") h))
  | inr silent ↦ rw silent h
]

add_announcement-add_announcement :
    (o : Options) (element : Text)
    → add_announcement o (add_announcement o element) ≡ add_announcement o element
unfolding add_announcement
add_announcement-add_announcement o element = elim (Bool-cases (announced o element)) [
  | inl due ↦ rw due (once _ (announcement-inside element _))
  | inr silent ↦ rw silent (rw silent refl)
]
  where
    once :
        (text : Text)
        → in_text (codes "--periodic-announcement ") text ≡ true
        → add_announcement o text ≡ text
    once text h = let done : announced o text ≡ false = ground arith in rw done refl

-- Completing the parameters of an application a second time, as a second run on the dictionary that
-- the first one has updated in place does, changes nothing.
pub complete_element-complete_element :
    (o : Options) (element : Text)
    → complete_element o (complete_element o element) ≡ complete_element o element
unfolding complete_element
complete_element-complete_element o element =
    let x = add_representation o element in
    ap (add_announcement o) (
      add_representation-same o (add_announcement o x)
        (add_announcement-keeps o (codes "-x ") x (represented o element)))
    ∙ add_announcement-add_announcement o (add_representation o element)

-- Whether a name is among those of an option; the answer where the option is not given.
abbrev pub listed_or : Bool → Option (List Text) → Text → Bool
unfolding contains
listed_or default none name = default
listed_or default (some names) name = contains name names

-- What is left of the names of a suite: first those that are not disabled, then the chosen of these.
abbrev pub kept_names : Options → List Text → List Text
kept_names o names =
    filter_list (listed_or true o.test_cases)
      (filter_list (λ n. not (listed_or false o.test_cases_disabled n)) names)

is_processed-listed :
    (o : Options) (name : Text)
    → is_processed o name
      ≡ (not (listed_or false o.test_cases_disabled name) && listed_or true o.test_cases name)
unfolding is_processed
is_processed-listed o name = elim (Option-cases o.test_cases_disabled) [
  | inl e ↦ elim (Option-cases o.test_cases) [
    | inl f ↦ rw (e, f, is_processed) refl
    | inr (names, f) ↦ rw (e, f, is_processed) refl
  ]
  | inr (disabled, e) ↦ elim (Option-cases o.test_cases) [
    | inl f ↦ rw (e, f, is_processed) refl
    | inr (names, f) ↦ rw (e, f, is_processed) refl
  ]
]

kept_names-next :
    (o : Options) (name : Text) (names : List Text)
    → kept_names o (name ∷ names)
      ≡ (if is_processed o name then name ∷ kept_names o names else kept_names o names)
kept_names-next o name names = rw (is_processed-listed o name) (
    ground_lists (listed_or false o.test_cases_disabled name) (listed_or true o.test_cases name)
      refl refl)
  where
    ground_lists :
        (d c : Bool)
        → listed_or false o.test_cases_disabled name ≡ d
        → listed_or true o.test_cases name ≡ c
        → kept_names o (name ∷ names)
          ≡ (if not d && c then name ∷ kept_names o names else kept_names o names)
    ground_lists true c e f = rw e refl
    ground_lists false true e f = rw (e, f) refl
    ground_lists false false e f = rw (e, f) refl

-- Where the loop over a suite ends with no exception, the names of the cases of the report are those
-- of the suite's tests, in its order, without the tests that are disabled and, where some are chosen,
-- without those that are not among these; and before each name stands the name of the suite and `_`.
pub run_entries-names :
    (o : Options) (feeds : Text → List Feed) (suite_name : Text) (suite : List TestEntry)
    (cases : List (Text × CaseResult))
    → run_entries o feeds suite_name suite ≡ returned cases
    → map_list (λ c. c.0) cases
      ≡ map_list (λ n. suite_name ++ b'_' ∷ n) (kept_names o (map_list (λ t. t.name) suite))
unfolding run_entries case_name
run_entries-names o feeds suite_name [] cases e = sym (ap (map_list (λ c. c.0)) (returned_inj e))
run_entries-names o feeds suite_name (t ∷ suite) cases e =
    elim (Bool-cases (is_processed o t.name)) [
      | inl processed ↦
          let (v, ran, more) =
            >>=-eq-returned (run_entry o feeds t) _ cases (rw (processed, run_entries) at e) in
          let (vs, rest, all) =
            >>=-eq-returned (run_entries o feeds suite_name suite) _ cases more in
          rw (kept_names-next o t.name (map_list (λ t. t.name) suite), processed)
            (sym (ap (map_list (λ c. c.0)) (returned_inj all))
              ∙ ap (λ l. (suite_name ++ b'_' ∷ t.name) ∷ l)
                  (run_entries-names o feeds suite_name suite vs rest))
      | inr left_out ↦
          rw (kept_names-next o t.name (map_list (λ t. t.name) suite), left_out)
            (run_entries-names o feeds suite_name suite cases (rw (left_out, run_entries) at e))
    ]

-- The process was alive at each poll, until the time was up and still at the poll after that.
abbrev pub Outlasts : ℕ → List Poll → Type 0
Outlasts limit [] = Unit
Outlasts limit ((alive, elapsed) ∷ polls) =
    (alive ≡ true) × (((limit ≤ elapsed) × (next_alive true polls ≡ true)) ⊎ Outlasts limit polls)

not-eq-false : (b : Bool) → not b ≡ false → b ≡ true
not-eq-false true e = refl
not-eq-false false e = cc e

still_alive-Outlasts :
    (limit : ℕ) (last : Bool) (polls : List Poll)
    → still_alive limit last polls ≡ true
    → Outlasts limit polls
unfolding still_alive
still_alive-Outlasts limit last [] h = tt
still_alive-Outlasts limit last ((true, elapsed) ∷ polls) h =
    elim (Bool-cases (ltb elapsed limit)) [
      | inl early ↦
          (refl, inr (still_alive-Outlasts limit true polls (rw (early, still_alive) at h)))
      | inr late ↦ (refl, inl (ground arith, rw (late, still_alive) at h))
    ]
still_alive-Outlasts limit last ((false, elapsed) ∷ polls) h = cc h

-- A process is killed, and `stop_process` returns `false`, only if it was alive, could be interrupted,
-- and was then alive at each poll: to the last one, or to one at which the time was up and also
-- when it was asked after that.
pub stop_process-Outlasts :
    (limit : ℕ) (alive interrupted output_ends : Bool) (polls : List Poll)
    → stop_process limit alive interrupted output_ends polls ≡ returned false
    → (alive ≡ true) × (interrupted ≡ true) × Outlasts limit polls
unfolding stop_process
stop_process-Outlasts limit false interrupted output_ends polls e = cc e
stop_process-Outlasts limit true false output_ends polls e = cc e
stop_process-Outlasts limit true true false polls e = cc e
stop_process-Outlasts limit true true true polls e =
    (refl, refl, still_alive-Outlasts limit true polls (not-eq-false _ (returned_inj e)))
