-- ===== src/Texts/Quoted.antt =====
-- `repr` of a text.
use dds_rtps.Prelude.{ℕ, Text, [], codes, if◌then◌else◌, ltb, not, ◌&&◌, ◌++◌, ◌==◌, ◌||◌, ◌∷◌}
use dds_rtps.Numerals.{padded_hex, plus}
use dds_rtps.Texts.{in_text}

two_hex_digits : ℕ → Text
unfolding padded_hex
two_hex_digits c = padded_hex 2 (plus c)

-- `repr(text)` between its quotation marks, of texts without unprintable characters beyond ASCII
quoted_chars : ℕ → Text → Text
unfolding two_hex_digits
quoted_chars q [] = []
quoted_chars q (c ∷ s) =
    (if c == q || c == b'\\'
      then b'\\' ∷ c ∷ []
      else if c == 9
      then codes "\\t"
      else if c == 10
      then codes "\\n"
      else if c == 13
      then codes "\\r"
      else if ltb c 32 || c == 127
      then codes "\\x" ++ two_hex_digits c
      else c ∷ [])
    ++ quoted_chars q s

-- `repr(text)`: in double quotation marks where it has single ones only
unfoldable pub quoted : Text → Text
unfolding quoted_chars in_text
quoted s =
    let q = if in_text (39 ∷ []) s && not (in_text (34 ∷ []) s) then 34 else 39 in
    q ∷ (quoted_chars q s ++ (q ∷ []))
