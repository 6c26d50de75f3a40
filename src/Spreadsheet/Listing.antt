-- ===== src/Spreadsheet/Listing.antt =====
-- The cases that get_info lists for each product, as a publisher and as a subscriber.
use dds_rtps.Prelude.{
  Bool, Bool-cases, List, Text, [], append-nil, append_assoc, false, if◌then◌else◌, inl, inr, refl,
  sym, text_eq, text_eq_iff, true, ◌++◌, ◌∙◌, ◌∷◌, ◌≡◌,
}
use dds_rtps.Report.Selection.{map_list}
use dds_rtps.Spreadsheet.{
  JunitData, Suite, SuiteCase, TestCaseData, add_suite, append_case, append_cases, case_data,
  get_info, names_of, suite_products,
}
use dds_rtps.Spreadsheet.Collecting.{find_or, find_or-update_value}

abbrev pub cases_in : Text → List (Text × List TestCaseData) → List TestCaseData
unfolding find_or text_eq
cases_in title d = find_or text_eq [] title d

cases_in-append_case :
    (title key : Text) (c : TestCaseData) (d : List (Text × List TestCaseData))
    → cases_in title (append_case key c d)
      ≡ (if text_eq key title then cases_in title d ++ (c ∷ []) else cases_in title d)
unfolding append_case cases_in find_or
cases_in-append_case title key c d =
    find_or-update_value text_eq text_eq_iff (λ a b. a ++ b) [] (λ v. refl) title key (c ∷ []) d

cases_in-append_cases :
    (title key product : Text) (cs : List SuiteCase) (d : List (Text × List TestCaseData))
    → cases_in title (append_cases key product cs d)
      ≡ cases_in title d ++ (if text_eq key title then map_list (case_data product) cs else [])
unfolding append_cases
cases_in-append_cases title key product [] d = nothing (text_eq key title)
  where
    nothing : (b : Bool) → cases_in title d ≡ cases_in title d ++ (if b then [] else [])
    nothing true = sym (append-nil (cases_in title d))
    nothing false = sym (append-nil (cases_in title d))
cases_in-append_cases title key product (c ∷ cs) d =
    cases_in-append_cases title key product cs (append_case key (case_data product c) d)
    ∙ elim (Bool-cases (text_eq key title)) [
      | inl e ↦
          rw (cases_in-append_case title key (case_data product c) d, e)
            (append_assoc (cases_in title d) (case_data product c ∷ [])
              (map_list (case_data product) cs))
      | inr e ↦ rw (cases_in-append_case title key (case_data product c) d, e) refl
    ]

-- The cases of the suites in which a product stands on one side, each with the product on the other side
abbrev pub cases_with :
    (Text × Text → Text) → (Text × Text → Text) → Text → List Suite → List TestCaseData
unfolding case_data text_eq
cases_with side other title [] = []
cases_with side other title (s ∷ suites) =
    (if text_eq (side (names_of s)) title
      then map_list (case_data (other (names_of s))) s.suite_cases
      else [])
    ++ cases_with side other title suites

-- After get_info over suites, from any dictionaries, the list of a product in publisher_product_dict is the
-- old one and then the cases of the suites in which it publishes, in the order of the suites and of the
-- cases in them, each with the subscribing product, its test and its status; the list in
-- subscriber_product_dict is the same with the sides exchanged.
pub get_info-lists :
    (title : Text) (suites : List Suite) (d : JunitData)
    → (cases_in title (get_info suites d).publisher_product_dict
        ≡ cases_in title d.publisher_product_dict ++ cases_with (λ p. p.0) (λ p. p.1) title suites)
      × (cases_in title (get_info suites d).subscriber_product_dict
          ≡ cases_in title d.subscriber_product_dict
            ++ cases_with (λ p. p.1) (λ p. p.0) title suites)
unfolding get_info add_suite cases_with names_of
get_info-lists title [] d = (
  sym (append-nil (cases_in title d.publisher_product_dict)),
  sym (append-nil (cases_in title d.subscriber_product_dict)),
)
get_info-lists title (s ∷ suites) d =
    let rest = get_info-lists title suites (add_suite s d) in
    let n : Text × Text = suite_products s.title in
    (
      rest.0
          ∙ joined n.0 n.1 d.publisher_product_dict (cases_with (λ p. p.0) (λ p. p.1) title suites),
      rest.1
          ∙ joined n.1 n.0 d.subscriber_product_dict
              (cases_with (λ p. p.1) (λ p. p.0) title suites),
    )
  where
    joined :
        (key product : Text) (d : List (Text × List TestCaseData)) (more : List TestCaseData)
        → cases_in title (append_cases key product s.suite_cases d) ++ more
          ≡ cases_in title d
            ++ ((if text_eq key title then map_list (case_data product) s.suite_cases else [])
                ++ more)
    joined key product d more = rw (cases_in-append_cases title key product s.suite_cases d) (
        append_assoc (cases_in title d)
          (if text_eq key title then map_list (case_data product) s.suite_cases else []) more)
