-- ===== src/Texts/Plain.antt =====
-- A text without blanks is what `strip` makes of it.
use dds_rtps.Prelude.{ℕ, All, Text, [], ap, false, refl, suc, zero, ◌++◌, ◌∷◌, ◌≡◌}
use dds_rtps.Regex.{space}
use dds_rtps.Texts.Edit.{is_blank_from, lstrip, rstrip, strip, zeros}

abbrev pub IsPlain : Text → Type 0
IsPlain text = All (λ c. space c ≡ false) text

lstrip-IsPlain : (text : Text) → IsPlain text → lstrip text ≡ text
unfolding lstrip
lstrip-IsPlain [] h = refl
lstrip-IsPlain (c ∷ text) (h, t) = rw h refl

rstrip-IsPlain : (text : Text) → IsPlain text → rstrip text ≡ text
unfolding rstrip is_blank_from
rstrip-IsPlain [] h = refl
rstrip-IsPlain (c ∷ text) (h, t) = rw h (ap (λ s. c ∷ s) (rstrip-IsPlain text t))

pub strip-IsPlain : (text : Text) → IsPlain text → strip text ≡ text
unfolding strip
strip-IsPlain text h = rw (lstrip-IsPlain text h) (rstrip-IsPlain text h)

pub IsPlain-append : (a b : Text) → IsPlain a → IsPlain b → IsPlain (a ++ b)
IsPlain-append [] b h k = k
IsPlain-append (c ∷ a) b (h, t) k = (h, IsPlain-append a b t k)

pub IsPlain-zeros : (n : ℕ) → IsPlain (zeros n)
unfolding zeros space
IsPlain-zeros zero = tt
IsPlain-zeros (suc n) = (refl, IsPlain-zeros n)
