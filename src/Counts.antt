-- ===== src/Counts.antt =====
-- A dictionary of counts, as the sources keep with `d[k] = d.get(k, 0) + n` and with `Counter`: the
-- keys stand in the order in which they came.
pub mod Laws
pub mod Lists
use dds_rtps.Prelude.{ℕ, Bool, List, [], if◌then◌else◌, ◌+◌, ◌∷◌}

module _ {K : Type 0} (same : K → K → Bool) where
  -- `d.get(k, 0)`
  unfoldable pub get : K → List (K × ℕ) → ℕ
  get k [] = 0
  get k ((j, n) ∷ d) = if same k j then n else get k d

  -- `d[k] = d.get(k, 0) + n`
  unfoldable pub raise_by : K → ℕ → List (K × ℕ) → List (K × ℕ)
  raise_by k n [] = (k, n) ∷ []
  raise_by k n ((j, m) ∷ d) = if same k j then (j, m + n) ∷ d else (j, m) ∷ raise_by k n d

  -- `Counter(ks)`, added to what is there
  unfoldable pub count_all : List K → List (K × ℕ) → List (K × ℕ)
  unfolding raise_by
  count_all [] d = d
  count_all (k ∷ ks) d = count_all ks (raise_by k 1 d)

-- `sum(v for k, v in d.items() if p(k))`
unfoldable pub sum_where {ℓ} : {K : Type ℓ} → (K → Bool) → List (K × ℕ) → ℕ
sum_where p [] = 0
sum_where p ((k, n) ∷ d) = (if p k then n else 0) + sum_where p d

-- How many of a list pass a test.
abbrev pub count_where {ℓ} : {K : Type ℓ} → (K → Bool) → List K → ℕ
count_where p [] = 0
count_where p (k ∷ ks) = (if p k then 1 else 0) + count_where p ks
