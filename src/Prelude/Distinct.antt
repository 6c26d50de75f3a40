-- ===== src/Prelude/Distinct.antt =====
-- Lists in which no element is repeated, by a test of equality.
use dds_rtps.Prelude.{All, Bool, List, [], false, ◌++◌, ◌∷◌, ◌≡◌}

module _ {ℓ} {A : Type ℓ} where
  -- No later element equals an earlier one.
  abbrev pub AreDistinct : (A → A → Bool) → List A → Type 0
  AreDistinct same [] = Unit
  AreDistinct same (x ∷ xs) = All (λ y. same x y ≡ false) xs × AreDistinct same xs

  pub All-append {κ} : (P : A → Type κ) (xs ys : List A) → All P xs → All P ys → All P (xs ++ ys)
  All-append P [] ys h k = k
  All-append P (x ∷ xs) ys (h, t) k = (h, All-append P xs ys t k)

  pub AreDistinct-snoc :
      (same : A → A → Bool) (xs : List A) (x : A)
      → AreDistinct same xs
      → All (λ y. same y x ≡ false) xs
      → AreDistinct same (xs ++ (x ∷ []))
  AreDistinct-snoc same [] x d h = (tt, tt)
  AreDistinct-snoc same (y ∷ xs) x (a, d) (e, h) =
      (All-append (λ z. same y z ≡ false) xs (x ∷ []) a (e, tt), AreDistinct-snoc same xs x d h)

  pub AreDistinct-front :
      (same : A → A → Bool) (xs : List A) (x : A) (ys : List A)
      → AreDistinct same (xs ++ (x ∷ ys))
      → All (λ y. same y x ≡ false) xs
  AreDistinct-front same [] x ys d = tt
  AreDistinct-front same (y ∷ xs) x ys (a, d) =
      (at_middle (λ z. same y z ≡ false) xs a, AreDistinct-front same xs x ys d)
    where
      at_middle : (P : A → Type 0) (zs : List A) → All P (zs ++ (x ∷ ys)) → P x
      at_middle P [] h = h.0
      at_middle P (z ∷ zs) h = at_middle P zs h.1
