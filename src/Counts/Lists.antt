-- ===== src/Counts/Lists.antt =====
-- How many elements of a list pass a test, after the list is filtered, mapped or sorted.
use dds_rtps.Prelude.{
  Bool, Bool-cases, List, [], arith, if◌then◌else◌, inl, inr, length, not, refl, ◌&&◌, ◌+◌, ◌∷◌,
  ◌≡◌,
}
use dds_rtps.Counts.{count_where}
use dds_rtps.Prelude.Sorting.{filter_list, insert_sorted, sorted}
use dds_rtps.Report.Selection.{map_list}

pub count_where-same {ℓ} :
    {A : Type ℓ} (p q : A → Bool)
    → ((x : A) → p x ≡ q x)
    → (xs : List A) → count_where p xs ≡ count_where q xs
count_where-same p q h [] = refl
count_where-same p q h (x ∷ xs) = rw (h x, count_where-same p q h xs) refl

pub count_where-map_list {ℓ κ} :
    {A : Type ℓ} {B : Type κ} (f : A → B) (p : B → Bool) (xs : List A)
    → count_where p (map_list f xs) ≡ count_where (λ x. p (f x)) xs
count_where-map_list f p [] = refl
count_where-map_list f p (x ∷ xs) = rw (count_where-map_list f p xs) refl

pub count_where-filter_list {ℓ} :
    {A : Type ℓ} (p q : A → Bool) (xs : List A)
    → count_where q (filter_list p xs) ≡ count_where (λ x. p x && q x) xs
count_where-filter_list p q [] = refl
count_where-filter_list p q (x ∷ xs) = elim (Bool-cases (p x)) [
  | inl e ↦ rw (e, count_where-filter_list p q xs) refl
  | inr e ↦ rw e (omega (arith, count_where-filter_list p q xs))
]

pub filter_list-rest {ℓ} :
    {A : Type ℓ} (p : A → Bool) (xs : List A)
    → length (filter_list p xs) + count_where (λ x. not (p x)) xs ≡ length xs
filter_list-rest p [] = omega arith
filter_list-rest p (x ∷ xs) = elim (Bool-cases (p x)) [
  | inl e ↦ rw e (omega (arith, filter_list-rest p xs))
  | inr e ↦ rw e (omega (arith, filter_list-rest p xs))
]

module _ {ℓ} {A : Type ℓ} (before : A → A → Bool) (p : A → Bool) where
  count_where-insert_sorted :
      (x : A) (ys : List A)
      → count_where p (insert_sorted before x ys) ≡ (if p x then 1 else 0) + count_where p ys
  unfolding insert_sorted
  count_where-insert_sorted x [] = refl
  count_where-insert_sorted x (y ∷ ys) = elim (Bool-cases (before x y)) [
    | inl e ↦ rw e refl
    | inr e ↦ rw e (omega (arith, count_where-insert_sorted x ys))
  ]

  pub count_where-sorted : (xs : List A) → count_where p (sorted before xs) ≡ count_where p xs
  unfolding sorted
  count_where-sorted [] = refl
  count_where-sorted (x ∷ xs) =
      omega (arith, count_where-insert_sorted x (sorted before xs), count_where-sorted xs)
