-- ===== src/Texts/Laws.antt =====
-- Text that is found stays found in a longer one.
use dds_rtps.Prelude.{Text, [], arith, refl, true, ◌++◌, ◌∷◌, ◌≡◌}
use dds_rtps.Texts.{in_text, is_prefix}

is_prefix-append :
    (p text rest : Text) → is_prefix p text ≡ true → is_prefix p (text ++ rest) ≡ true
unfolding is_prefix
is_prefix-append [] text rest h = refl
is_prefix-append (c ∷ p) [] rest h = cc h
is_prefix-append (c ∷ p) (d ∷ text) rest h = ground (arith, is_prefix-append p text rest)

in_text-prefix : (p text : Text) → is_prefix p text ≡ true → in_text p text ≡ true
unfolding in_text
in_text-prefix p [] h = h
in_text-prefix p (c ∷ text) h = rw h refl

pub in_text-append : (p text rest : Text) → in_text p text ≡ true → in_text p (text ++ rest) ≡ true
unfolding in_text
in_text-append p [] rest h = in_text-prefix p rest (is_prefix-append p [] rest h)
in_text-append p (c ∷ text) rest h =
    ground (arith, is_prefix-append p (c ∷ text) rest, in_text-append p text rest)

pub in_text-append_right :
    (p text rest : Text) → in_text p rest ≡ true → in_text p (text ++ rest) ≡ true
unfolding in_text
in_text-append_right p [] rest h = h
in_text-append_right p (c ∷ text) rest h = ground (arith, in_text-append_right p text rest)
