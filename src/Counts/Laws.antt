-- ===== src/Counts/Laws.antt =====
-- The counts of a dictionary against those of the list that was counted.
-- Keys that are the same are equal.
use dds_rtps.Prelude.{
  ℕ, Bool, Bool-cases, List, [], ap, arith, false, if◌then◌else◌, inl, inr, refl, sym, true, ◌+◌,
  ◌↔◌, ◌∙◌, ◌∷◌, ◌≡◌,
}
use dds_rtps.Counts.{count_all, count_where, get, raise_by, sum_where}

module _ {K : Type 0} (same : K → K → Bool)
    (same_iff : (j k : K) → (same j k ≡ true) ↔ (j ≡ k)) where
  pub sum_where-raise_by :
      (p : K → Bool) (k : K) (n : ℕ) (d : List (K × ℕ))
      → sum_where p (raise_by same k n d) ≡ sum_where p d + (if p k then n else 0)
  unfolding raise_by sum_where
  sum_where-raise_by p k n [] = ground arith
  sum_where-raise_by p k n ((j, m) ∷ d) = elim (Bool-cases (same k j)) [
    | inl alike ↦ rw alike (rw ((same_iff k j).0 alike) (merged (p j)))
    | inr other ↦ rw other (omega (arith, sum_where-raise_by p k n d))
  ]
    where
      merged :
          (b : Bool)
          → (if b then m + n else 0) + sum_where p d
            ≡ (if b then m else 0) + sum_where p d + (if b then n else 0)
      merged true = omega arith
      merged false = omega arith

  not_same : (j k i : K) → same k i ≡ true → same j i ≡ false → same j k ≡ false
  not_same j k i alike there = elim (Bool-cases (same j k)) [
    | inl equal ↦
        cc (sym there ∙ (same_iff j i).1 ((same_iff j k).0 equal ∙ (same_iff k i).0 alike))
    | inr apart ↦ apart
  ]

  pub get-raise_by :
      (k j : K) (n : ℕ) (d : List (K × ℕ))
      → get same j (raise_by same k n d) ≡ get same j d + (if same j k then n else 0)
  unfolding raise_by get
  get-raise_by k j n [] = elim (Bool-cases (same j k)) [
    | inl alike ↦ rw alike (omega arith)
    | inr other ↦ rw other (omega arith)
  ]
  get-raise_by k j n ((i, m) ∷ d) = elim (Bool-cases (same k i)) [
    | inl alike ↦ rw alike (elim (Bool-cases (same j i)) [
      | inl here ↦
          let back : same j k ≡ true =
            (same_iff j k).1 ((same_iff j i).0 here ∙ sym ((same_iff k i).0 alike)) in
          rw (here, back) refl
      | inr there ↦
          let apart : same j k ≡ false = not_same j k i alike there in
          rw (there, apart) (omega arith)
    ])
    | inr other ↦ rw other (elim (Bool-cases (same j i)) [
      | inl here ↦
          let apart : same j k ≡ false = other_key here other in rw (here, apart) (omega arith)
      | inr there ↦ rw there (get-raise_by k j n d)
    ])
  ]
    where
      other_key : same j i ≡ true → same k i ≡ false → same j k ≡ false
      other_key here other = elim (Bool-cases (same j k)) [
        | inl equal ↦
            cc (sym other ∙ (same_iff k i).1 (sym ((same_iff j k).0 equal) ∙ (same_iff j i).0 here))
        | inr apart ↦ apart
      ]

  -- Counting a list adds, for each test on keys, how many of the list pass it.
  pub sum_where-count_all :
      (p : K → Bool) (ks : List K) (d : List (K × ℕ))
      → sum_where p (count_all same ks d) ≡ sum_where p d + count_where p ks
  unfolding count_all
  sum_where-count_all p [] d = omega arith
  sum_where-count_all p (k ∷ ks) d =
      sum_where-count_all p ks (raise_by same k 1 d)
      ∙ ap (λ n. n + count_where p ks) (sum_where-raise_by p k 1 d)
      ∙ add_assoc_here (sum_where p d)
    where
      add_assoc_here :
          (n : ℕ)
          → n + (if p k then 1 else 0) + count_where p ks
            ≡ n + ((if p k then 1 else 0) + count_where p ks)
      add_assoc_here n = omega arith

  -- And each key then has its former count and its occurrences in the list.
  pub get-count_all :
      (j : K) (ks : List K) (d : List (K × ℕ))
      → get same j (count_all same ks d) ≡ get same j d + count_where (same j) ks
  unfolding count_all
  get-count_all j [] d = omega arith
  get-count_all j (k ∷ ks) d =
      get-count_all j ks (raise_by same k 1 d)
      ∙ ap (λ n. n + count_where (same j) ks) (get-raise_by k j 1 d)
      ∙ add_assoc_here (get same j d)
    where
      add_assoc_here :
          (n : ℕ)
          → n + (if same j k then 1 else 0) + count_where (same j) ks
            ≡ n + ((if same j k then 1 else 0) + count_where (same j) ks)
      add_assoc_here n = omega arith
