-- ===== src/Spreadsheet/Collecting.antt =====
-- What get_info leaves in the dictionaries, against the suites of the report.
use dds_rtps.Prelude.{
  ℕ, Bool, Bool-cases, List, Text, [], ap, arith, false, if◌then◌else◌, inl, inr, refl, sym,
  text_eq, text_eq_iff, true, ◌&&◌, ◌+◌, ◌||◌, ◌↔◌, ◌∙◌, ◌∷◌, ◌≡◌,
}
use dds_rtps.Counts.{count_where}
use dds_rtps.Prelude.Sorting.{filter_list}
use dds_rtps.Spreadsheet.{
  AggregatedData, JunitData, Suite, add_data, add_suite, count_unsupported, get_info,
  is_pub_unsupported, is_sub_unsupported, names_of, same_pair, suite_data, update_value,
}

module _ {K V : Type 0} (same : K → K → Bool) (empty : V) where
  -- `d.get(key, empty)`
  unfoldable pub find_or : K → List (K × V) → V
  find_or key [] = empty
  find_or key ((k, v) ∷ d) = if same k key then v else find_or key d

module _ {K V : Type 0} (same : K → K → Bool) (same_iff : (j k : K) → (same j k ≡ true) ↔ (j ≡ k))
    (join_values : V → V → V) (empty : V) (join-empty : (v : V) → join_values empty v ≡ v) where
  -- keys that differ are not the same
  differ : (i j k : K) → same i k ≡ true → same i j ≡ false → same k j ≡ false
  differ i j k here there = elim (Bool-cases (same k j)) [
    | inl equal ↦ cc (sym there ∙ (same_iff i j).1 ((same_iff i k).0 here ∙ (same_iff k j).0 equal))
    | inr apart ↦ apart
  ]

  agree : (i j k : K) → same i k ≡ true → same i j ≡ true → same k j ≡ true
  agree i j k here there = (same_iff k j).1 (sym ((same_iff i k).0 here) ∙ (same_iff i j).0 there)

  pub find_or-update_value :
      (j k : K) (v : V) (d : List (K × V))
      → find_or same empty j (update_value same join_values k v d)
        ≡ (if same k j then join_values (find_or same empty j d) v else find_or same empty j d)
  unfolding find_or update_value
  find_or-update_value j k v [] = elim (Bool-cases (same k j)) [
    | inl alike ↦ rw alike (sym (join-empty v))
    | inr other ↦ rw other refl
  ]
  find_or-update_value j k v ((i, w) ∷ d) = elim (Bool-cases (same i k)) [
    | inl here ↦ rw here (elim (Bool-cases (same i j)) [
      | inl hit ↦ let now : same k j ≡ true = agree i j k here hit in rw (hit, now) refl
      | inr missed ↦
          let apart : same k j ≡ false = differ i j k here missed in rw (missed, apart) refl
    ])
    | inr elsewhere ↦ rw elsewhere (elim (Bool-cases (same i j)) [
      | inl hit ↦ let apart : same k j ≡ false = later i hit elsewhere in rw (hit, apart) refl
      | inr missed ↦ rw missed (find_or-update_value j k v d)
    ])
  ]
    where
      later : (i : K) → same i j ≡ true → same i k ≡ false → same k j ≡ false
      later i hit elsewhere = elim (Bool-cases (same k j)) [
        | inl equal ↦
            cc (
              sym elsewhere
              ∙ (same_iff i k).1 ((same_iff i j).0 hit ∙ sym ((same_iff k j).0 equal)))
        | inr apart ↦ apart
      ]

abbrev pub no_tests : AggregatedData
no_tests = record {
  passed_tests = record { plus = 0; minus = 0 };
  total_tests = 0;
  unsupported_tests = 0;
}

add_data-no_tests : (v : AggregatedData) → add_data no_tests v ≡ v
add_data-no_tests v = λ i. record {
  passed_tests = record {
    plus = add_zero v.passed_tests.plus i;
    minus = add_zero v.passed_tests.minus i;
  };
  total_tests = add_zero v.total_tests i;
  unsupported_tests = add_zero v.unsupported_tests i;
}
  where
    add_zero : (n : ℕ) → 0 + n ≡ n
    add_zero n = omega arith

same_pair_iff : (a b : Text × Text) → (same_pair a b ≡ true) ↔ (a ≡ b)
same_pair_iff (a, x) (b, y) = (forth, back)
  where
    forth : same_pair (a, x) (b, y) ≡ true → Path (Text × Text) (a, x) (b, y)
    forth h = λ i. ((text_eq_iff a b).0 (both h).0 i, (text_eq_iff x y).0 (both h).1 i)
      where
        both : (text_eq a b && text_eq x y) ≡ true → (text_eq a b ≡ true) × (text_eq x y ≡ true)
        both h = ground arith

    back : Path (Text × Text) (a, x) (b, y) → same_pair (a, x) (b, y) ≡ true
    back h = rw ((text_eq_iff a b).1 (ap (λ p. p.0) h), (text_eq_iff x y).1 (ap (λ p. p.1) h)) refl

-- The sum of a number of each suite
abbrev pub sum_of : (Suite → ℕ) → List Suite → ℕ
sum_of g [] = 0
sum_of g (s ∷ suites) = g s + sum_of g suites

-- Does a suite test the product, on either side?
abbrev pub takes_part : Text → Suite → Bool
takes_part title s = text_eq (names_of s).0 title || text_eq (names_of s).1 title

abbrev pub data_of : Text → JunitData → AggregatedData
unfolding find_or text_eq
data_of title d = find_or text_eq no_tests title d.summary_dict

abbrev pub pair_data_of : Text × Text → JunitData → AggregatedData
unfolding find_or
pair_data_of p d = find_or same_pair no_tests p d.product_summary_dict

-- A number read off the data grows as that of the suites does.
module _ (entry : JunitData → AggregatedData) (p : Suite → Bool) (f : AggregatedData → ℕ)
    (f-add_data : (a b : AggregatedData) → f (add_data a b) ≡ f a + f b)
    (entry-add_suite : (s : Suite) (d : JunitData)
      → entry (add_suite s d) ≡ (if p s then add_data (entry d) (suite_data s) else entry d)) where
  entry-get_info :
      (suites : List Suite) (d : JunitData)
      → f (entry (get_info suites d))
        ≡ f (entry d) + sum_of (λ s. f (suite_data s)) (filter_list p suites)
  unfolding get_info
  entry-get_info [] d = omega arith
  entry-get_info (s ∷ suites) d = elim (Bool-cases (p s)) [
    | inl e ↦
        let now : f (entry (add_suite s d)) ≡ f (entry d) + f (suite_data s) =
          ap f (entry-add_suite s d ∙ rw e refl) ∙ f-add_data (entry d) (suite_data s) in
        rw e (omega (arith, now, entry-get_info suites (add_suite s d)))
    | inr e ↦
        let now : f (entry (add_suite s d)) ≡ f (entry d) =
          ap f (entry-add_suite s d ∙ rw e refl) in
        rw e (omega (arith, now, entry-get_info suites (add_suite s d)))
  ]

find_or-update_data :
    (title k : Text) (v : AggregatedData) (d : List (Text × AggregatedData))
    → find_or text_eq no_tests title (update_value text_eq add_data k v d) ≡ (
        if text_eq k title
        then add_data (find_or text_eq no_tests title d) v
        else find_or text_eq no_tests title d)
find_or-update_data = find_or-update_value text_eq text_eq_iff add_data no_tests add_data-no_tests

-- The two calls of a suite raise the entry of a product once.
find_or-update_twice :
    (title a b : Text) (v : AggregatedData) (d : List (Text × AggregatedData))
    → find_or text_eq no_tests title (
        if text_eq a b
        then update_value text_eq add_data a v d
        else update_value text_eq add_data b v (update_value text_eq add_data a v d))
      ≡ (if text_eq a title || text_eq b title
          then add_data (find_or text_eq no_tests title d) v
          else find_or text_eq no_tests title d)
find_or-update_twice title a b v d = elim (Bool-cases (text_eq a b)) [
  | inl alike ↦
      let equal : text_eq b title ≡ text_eq a title =
        ap (λ x. text_eq x title) (sym ((text_eq_iff a b).0 alike)) in
      rw (alike, equal, find_or-update_data title a v d) (once (text_eq a title))
  | inr other ↦
      rw
        (
          other,
          find_or-update_data title b v (update_value text_eq add_data a v d),
          find_or-update_data title a v d,
        )
        (elim (Bool-cases (text_eq a title)) [
          | inl first ↦ rw (first, apart first other) refl
          | inr e ↦ rw e refl
        ])
]
  where
    once :
        (t : Bool)
        → (if t
            then add_data (find_or text_eq no_tests title d) v
            else find_or text_eq no_tests title d)
          ≡ (if t || t
              then add_data (find_or text_eq no_tests title d) v
              else find_or text_eq no_tests title d)
    once true = refl
    once false = refl

    apart : text_eq a title ≡ true → text_eq a b ≡ false → text_eq b title ≡ false
    apart first other = elim (Bool-cases (text_eq b title)) [
      | inl second ↦ cc (
          sym other
          ∙ (text_eq_iff a b).1
              ((text_eq_iff a title).0 first ∙ sym ((text_eq_iff b title).0 second)))
      | inr e ↦ e
    ]

data_of-add_suite :
    (title : Text) (s : Suite) (d : JunitData)
    → data_of title (add_suite s d)
      ≡ (if takes_part title s then add_data (data_of title d) (suite_data s) else data_of title d)
unfolding add_suite data_of find_or
data_of-add_suite title s d =
    find_or-update_twice title (names_of s).0 (names_of s).1 (suite_data s) d.summary_dict

pair_data_of-add_suite :
    (p : Text × Text) (s : Suite) (d : JunitData)
    → pair_data_of p (add_suite s d) ≡ (
        if same_pair (names_of s) p
        then add_data (pair_data_of p d) (suite_data s)
        else pair_data_of p d)
unfolding add_suite pair_data_of find_or
pair_data_of-add_suite p s d =
    find_or-update_value same_pair same_pair_iff add_data no_tests add_data-no_tests p (names_of s)
      (suite_data s) d.product_summary_dict

-- A dictionary adds up, for each key, the suites of a test of suites.
abbrev pub AddsUp : (JunitData → AggregatedData) → (Suite → Bool) → List Suite → JunitData → Type 0
unfolding get_info
AddsUp entry p suites d =
    ((entry (get_info suites d)).total_tests
      ≡ (entry d).total_tests + sum_of (λ s. s.tests) (filter_list p suites))
    × ((entry (get_info suites d)).passed_tests.plus
        ≡ (entry d).passed_tests.plus + sum_of (λ s. s.tests) (filter_list p suites))
    × ((entry (get_info suites d)).passed_tests.minus
        ≡ (entry d).passed_tests.minus
          + sum_of (λ s. s.failed_tests + s.skipped_tests + s.error_tests) (filter_list p suites))
    × ((entry (get_info suites d)).unsupported_tests
        ≡ (entry d).unsupported_tests
          + sum_of
              (λ s. count_where (λ c. is_pub_unsupported c || is_sub_unsupported c) s.suite_cases)
              (filter_list p suites))

-- After get_info over suites, from any dictionaries (for an empty one the old numbers are 0), each number
-- of the entry of a product in summary_dict is the old one and the sum over the suites in which the
-- product publishes or subscribes, a suite in which it does both counted once; and each number of the
-- entry of a pair in product_summary_dict is the old one and the sum over the suites of that pair. The
-- numbers are the tests, the passed tests, as the tests from which the failed, the skipped and the errors
-- are taken, and the cases whose first message names an unsupported feature.
pub get_info-AddsUp :
    (suites : List Suite) (d : JunitData) (title : Text) (p : Text × Text)
    → AddsUp (data_of title) (takes_part title) suites d
      × AddsUp (pair_data_of p) (λ s. same_pair (names_of s) p) suites d
unfolding AddsUp suite_data count_unsupported
get_info-AddsUp suites d title p = (
  adds_up (data_of title) (takes_part title) (data_of-add_suite title),
  adds_up (pair_data_of p) (λ s. same_pair (names_of s) p) (pair_data_of-add_suite p),
)
  where
    adds_up :
        (entry : JunitData → AggregatedData) (p : Suite → Bool)
        → ((s : Suite) (d : JunitData)
            → entry (add_suite s d) ≡ (if p s then add_data (entry d) (suite_data s) else entry d))
        → AddsUp entry p suites d
    adds_up entry p step = (
      entry-get_info entry p (λ a. a.total_tests) (λ a b. refl) step suites d,
      entry-get_info entry p (λ a. a.passed_tests.plus) (λ a b. refl) step suites d,
      entry-get_info entry p (λ a. a.passed_tests.minus) (λ a b. refl) step suites d,
      entry-get_info entry p (λ a. a.unsupported_tests) (λ a b. refl) step suites d,
    )
