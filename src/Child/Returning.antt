-- ===== src/Child/Returning.antt =====
-- What holds of the value that a function returns, if it raises no exception.
use dds_rtps.Prelude.{subst, ◌≡◌}
use dds_rtps.Child.{Outcome, raised, returned, ◌>>=◌}

abbrev pub Ensures {ℓ κ} : {A : Type ℓ} → (A → Type κ) → Outcome A → Type κ
Ensures P (returned a) = P a
Ensures P (raised e) = Unit

pub Ensures->>= {ℓ κ ℓ' κ'} :
    {A : Type ℓ} {B : Type ℓ'} (P : A → Type κ) (Q : B → Type κ') (o : Outcome A)
    (k : A → Outcome B)
    → Ensures P o
    → ((a : A) → P a → Ensures Q (k a))
    → Ensures Q (o >>= k)
Ensures->>= P Q (returned a) k h g = g a h
Ensures->>= P Q (raised e) k h g = tt

pub Ensures-returned {ℓ κ} :
    {A : Type ℓ} (P : A → Type κ) (o : Outcome A) (a : A) → Ensures P o → o ≡ returned a → P a
Ensures-returned P o a h e = subst (Ensures P) e h
