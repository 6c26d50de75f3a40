-- ===== src/Prelude/Sorting.antt =====
-- Python's `sorted` of lists by a text, and its order of texts.
use dds_rtps.Prelude.{
  Bool, Bool-cases, List, Text, [], ap, false, if◌then◌else◌, inl, inr, ltb, refl, true, ◌==◌, ◌||◌,
  ◌∙◌, ◌∷◌, ◌≡◌,
}

-- `[x for x in xs if p(x)]`
abbrev pub filter_list {ℓ} : {A : Type ℓ} → (A → Bool) → List A → List A
filter_list p [] = []
filter_list p (x ∷ xs) = if p x then x ∷ filter_list p xs else filter_list p xs

-- `a <= b`
unfoldable pub text_leb : Text → Text → Bool
text_leb [] b = true
text_leb (x ∷ a) [] = false
text_leb (x ∷ a) (y ∷ b) = if x == y then text_leb a b else ltb x y

module _ {ℓ} {A : Type ℓ} (before : A → A → Bool) where
  -- An element goes in front of the first one that it may stand before.
  unfoldable pub insert_sorted : A → List A → List A
  insert_sorted x [] = x ∷ []
  insert_sorted x (y ∷ ys) = if before x y then x ∷ y ∷ ys else y ∷ insert_sorted x ys

  -- `sorted`, which keeps the order of elements that may stand before each other
  unfoldable pub sorted : List A → List A
  unfolding insert_sorted
  sorted [] = []
  sorted (x ∷ xs) = insert_sorted x (sorted xs)

module _ {ℓ} {A : Type ℓ} where
  -- Does a test hold of some element?
  abbrev pub any_of : (A → Bool) → List A → Bool
  any_of p [] = false
  any_of p (x ∷ xs) = p x || any_of p xs

  any_of-insert_sorted :
      (before : A → A → Bool) (p : A → Bool) (x : A) (ys : List A)
      → any_of p (insert_sorted before x ys) ≡ p x || any_of p ys
  unfolding insert_sorted
  any_of-insert_sorted before p x [] = refl
  any_of-insert_sorted before p x (y ∷ ys) = elim (Bool-cases (before x y)) [
    | inl e ↦ rw e refl
    | inr e ↦
        rw e
          (ap (λ b. p y || b) (any_of-insert_sorted before p x ys) ∙ swap (p y) (p x) (any_of p ys))
  ]
    where
      swap : (a b c : Bool) → a || (b || c) ≡ b || (a || c)
      swap true true c = refl
      swap true false c = refl
      swap false b c = refl

  -- Sorting keeps the elements.
  pub any_of-sorted :
      (before : A → A → Bool) (p : A → Bool) (xs : List A)
      → any_of p (sorted before xs) ≡ any_of p xs
  unfolding sorted
  any_of-sorted before p [] = refl
  any_of-sorted before p (x ∷ xs) =
      any_of-insert_sorted before p x (sorted before xs)
      ∙ ap (λ b. p x || b) (any_of-sorted before p xs)
