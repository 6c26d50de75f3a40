-- ===== src/Junit/Tables/Words.antt =====
-- The roles and the names of the codes as the cells of the table hold them.
use dds_rtps.Prelude.{
  ℕ, All, Bool, Text, [], ap, arith, codes, false, refl, true, ◌&&◌, ◌++◌, ◌==◌, ◌∷◌, ◌≡◌,
}
use dds_rtps.ReturnCode.{
  ReturnCode, data_not_correct, data_not_received, data_not_sent, deadline_missed,
  filter_not_created, incompatible_qos, name, ok, ordered_access_instance, ordered_access_topic,
  pub_unsupported_feature, reader_not_created, reader_not_matched, receiving_from_both,
  receiving_from_one, sub_unsupported_feature, topic_not_created, writer_not_created,
}
use dds_rtps.Numerals.Decimals.{IsDigits, decimal-IsDigits}
use dds_rtps.Regex.{digit, space, word}
use dds_rtps.Report.Message.{role_of}
use dds_rtps.Report.Verdict.{Kind, Process, publisher, subscriber}
use dds_rtps.Texts.{decimal}
use dds_rtps.Texts.Edit.{is_blank_from, lstrip, rstrip, strip}
use dds_rtps.Texts.Plain.{IsPlain}

abbrev pub IsContent : Text → Type 0
IsContent s = All (λ c. (c == b'<') ≡ false) s

-- A text with blanks at both ends
abbrev pub padded : Text → Text
padded s = b' ' ∷ (s ++ codes " ")

-- Names are made of letters, digits and underscores.
unfoldable pub all_word : Text → Bool
unfolding word
all_word [] = true
all_word (c ∷ s) = word c && all_word s

word-content : (c : ℕ) → word c ≡ true → (c == b'<') ≡ false
unfolding word digit
word-content c h = ground arith

word-plain : (c : ℕ) → word c ≡ true → space c ≡ false
unfolding word digit space
word-plain c h = ground arith

pub all_word-IsContent : (s : Text) → all_word s ≡ true → IsContent s
unfolding all_word
all_word-IsContent [] h = tt
all_word-IsContent (c ∷ s) h = (word-content c (ground arith), all_word-IsContent s (ground arith))

all_word-IsPlain : (s : Text) → all_word s ≡ true → IsPlain s
unfolding all_word
all_word-IsPlain [] h = tt
all_word-IsPlain (c ∷ s) h = (word-plain c (ground arith), all_word-IsPlain s (ground arith))

pub all_word-name : (c : ReturnCode) → all_word (name c) ≡ true
unfolding all_word digit
all_word-name c = elim c as (λ d. all_word (name d) ≡ true) [
  | ok ↦ refl
  | topic_not_created ↦ refl
  | reader_not_created ↦ refl
  | writer_not_created ↦ refl
  | filter_not_created ↦ refl
  | incompatible_qos ↦ refl
  | reader_not_matched ↦ refl
  | data_not_received ↦ refl
  | data_not_sent ↦ refl
  | data_not_correct ↦ refl
  | receiving_from_one ↦ refl
  | receiving_from_both ↦ refl
  | deadline_missed ↦ refl
  | ordered_access_instance ↦ refl
  | ordered_access_topic ↦ refl
  | pub_unsupported_feature ↦ refl
  | sub_unsupported_feature ↦ refl
]

digit-word : (c : ℕ) → digit c ≡ true → word c ≡ true
unfolding word
digit-word c h = ground arith

all_word-IsDigits : (s : Text) → IsDigits s → all_word s ≡ true
unfolding all_word
all_word-IsDigits [] h = refl
all_word-IsDigits (c ∷ s) (e, h) = rw (digit-word c e) (all_word-IsDigits s h)

pub all_word-role_of : (p : Process) → all_word (role_of p) ≡ true
unfolding all_word digit
all_word-role_of p = of_kind p.kind p.number
  where
    of_kind :
        (k : Kind) (n : ℕ)
        → all_word (elim k as (λ k'. Text) [
          | publisher ↦ codes "Publisher_" ++ decimal n
          | subscriber ↦ codes "Subscriber_" ++ decimal n
        ])
          ≡ true
    of_kind publisher n = all_word-IsDigits (decimal n) (decimal-IsDigits n)
    of_kind subscriber n = all_word-IsDigits (decimal n) (decimal-IsDigits n)

-- The blanks at the ends of a cell are taken off.
rstrip-blank : (s : Text) → all_word s ≡ true → rstrip (s ++ codes " ") ≡ s
unfolding rstrip is_blank_from all_word space
rstrip-blank [] h = refl
rstrip-blank (c ∷ s) h =
    rw (word-plain c (ground arith)) (ap (λ x. c ∷ x) (rstrip-blank s (ground arith)))

first_word_of : (d : ℕ) (s : Text) → all_word (d ∷ s) ≡ true → word d ≡ true
unfolding all_word
first_word_of d s h = ground arith

strip-word : (d : ℕ) (s : Text) → all_word (d ∷ s) ≡ true → strip (padded (d ∷ s)) ≡ d ∷ s
unfolding strip lstrip space
strip-word d s h = rw (word-plain d (first_word_of d s h)) (rstrip-blank (d ∷ s) h)

pub strip-padded : (s : Text) → all_word s ≡ true → strip (padded s) ≡ s
unfolding strip lstrip rstrip space
strip-padded [] h = refl
strip-padded (d ∷ s) h = strip-word d s h
