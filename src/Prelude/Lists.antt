-- ===== src/Prelude/Lists.antt =====
-- What filtering, sorting and mapping keep of a list.
use dds_rtps.Prelude.{
  All, Bool, Bool-cases, List, [], ap, false, inl, inr, length, refl, suc, ◌∙◌, ◌∷◌, ◌≡◌,
}
use dds_rtps.Prelude.Sorting.{filter_list, insert_sorted, sorted}
use dds_rtps.Report.Selection.{map_list}

pub All-map {ℓ κ κ'} :
    {A : Type ℓ} (P : A → Type κ) (Q : A → Type κ') (xs : List A)
    → ((x : A) → P x → Q x)
    → All P xs
    → All Q xs
All-map P Q [] f h = tt
All-map P Q (x ∷ xs) f (h, t) = (f x h, All-map P Q xs f t)

pub All-filter {ℓ κ} :
    {A : Type ℓ} (P : A → Type κ) (p : A → Bool) (xs : List A) → All P xs → All P (filter_list p xs)
All-filter P p [] h = tt
All-filter P p (x ∷ xs) (h, t) = elim (Bool-cases (p x)) [
  | inl e ↦ rw e (h, All-filter P p xs t)
  | inr e ↦ rw e (All-filter P p xs t)
]

pub All-insert_sorted {ℓ κ} :
    {A : Type ℓ} (P : A → Type κ) (before : A → A → Bool) (x : A) (ys : List A)
    → P x
    → All P ys
    → All P (insert_sorted before x ys)
unfolding insert_sorted
All-insert_sorted P before x [] h k = (h, tt)
All-insert_sorted P before x (y ∷ ys) h (k, l) = elim (Bool-cases (before x y)) [
  | inl e ↦ rw e (h, (k, l))
  | inr e ↦ rw e (k, All-insert_sorted P before x ys h l)
]

pub All-sorted {ℓ κ} :
    {A : Type ℓ} (P : A → Type κ) (before : A → A → Bool) (xs : List A)
    → All P xs
    → All P (sorted before xs)
unfolding sorted
All-sorted P before [] h = tt
All-sorted P before (x ∷ xs) (h, t) =
    All-insert_sorted P before x (sorted before xs) h (All-sorted P before xs t)

pub filter_list-none {ℓ} :
    {A : Type ℓ} (p : A → Bool) (xs : List A) → All (λ x. p x ≡ false) xs → filter_list p xs ≡ []
filter_list-none p [] h = refl
filter_list-none p (x ∷ xs) (e, h) = rw e (filter_list-none p xs h)

length-insert_sorted {ℓ} :
    {A : Type ℓ} (before : A → A → Bool) (x : A) (ys : List A)
    → length (insert_sorted before x ys) ≡ suc (length ys)
unfolding insert_sorted
length-insert_sorted before x [] = refl
length-insert_sorted before x (y ∷ ys) = elim (Bool-cases (before x y)) [
  | inl e ↦ rw e refl
  | inr e ↦ rw e (ap (λ n. suc n) (length-insert_sorted before x ys))
]

pub length-sorted {ℓ} :
    {A : Type ℓ} (before : A → A → Bool) (xs : List A) → length (sorted before xs) ≡ length xs
unfolding sorted
length-sorted before [] = refl
length-sorted before (x ∷ xs) =
    length-insert_sorted before x (sorted before xs) ∙ ap (λ n. suc n) (length-sorted before xs)

pub length-map_list {ℓ κ} :
    {A : Type ℓ} {B : Type κ} (f : A → B) (xs : List A) → length (map_list f xs) ≡ length xs
length-map_list f [] = refl
length-map_list f (x ∷ xs) = ap (λ n. suc n) (length-map_list f xs)
