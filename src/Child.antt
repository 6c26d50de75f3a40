-- ===== src/Child.antt =====
-- The process under test as the check functions see it. `pexpect` is not part of the sources:
-- what the calls `child_sub.expect(patterns, timeout)` report, in order, is an argument of every
-- model, the list of replies. A process ends and its output is finite, so the list is, and once it
-- is used up each further call reports EOF.
pub mod Returning
use dds_rtps.Prelude.{ℕ, List, Text, [], refl, ◌∷◌, ◌≡◌}

pub data Reply : Type 0 where
  -- The index in the list of patterns, among those before TIMEOUT and EOF, and
  -- `child_sub.before + child_sub.after`.
  found : ℕ → Text → Reply
  timeout eof : Reply

abbrev pub Feed : Type 0
Feed = List Reply

-- One call of `expect`, and the replies of the later ones.
abbrev pub expect : Feed → Reply × Feed
expect [] = (eof, [])
expect (r ∷ feed) = (r, feed)

-- An exception that ends a function of the sources.
pub data Exception : Type 0 where
  attribute_error index_error runtime_error assertion_error timeout_error : Exception
  type_error value_error : Exception

pub data Outcome {ℓ} (A : Type ℓ) : Type ℓ where
  returned : A → Outcome A
  raised : Exception → Outcome A

infixl 5 ◌>>=◌
abbrev pub ◌>>=◌ {ℓ κ} : {A : Type ℓ} {B : Type κ} → Outcome A → (A → Outcome B) → Outcome B
returned a >>= k = k a
raised e >>= k = raised e

pub returned_inj {ℓ} : {A : Type ℓ} {a b : A} → returned a ≡ returned b → a ≡ b
returned_inj e = cc e

-- A chain that returns has steps that do.
pub >>=-eq-returned {ℓ κ} :
    {A : Type ℓ} {B : Type κ} (o : Outcome A) (k : A → Outcome B) (b : B)
    → (o >>= k) ≡ returned b
    → (a : A) × (o ≡ returned a) × (k a ≡ returned b)
>>=-eq-returned (returned a) k b e = (a, refl, e)
>>=-eq-returned (raised x) k b e = cc e
