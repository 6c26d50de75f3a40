-- ===== src/Report/Publisher/Laws.antt =====
-- What a publisher's process leaves behind.
-- The texts that the calls of `expect` match with a sample, up to the first other reply.
use dds_rtps.Prelude.{
  ℕ, List, Option-cases, Text, [], ap, append-nil, append_assoc, arith, inl, inr, length, none,
  refl, some, suc, sym, take, zero, ◌++◌, ◌<◌, ◌↔◌, ◌∙◌, ◌∷◌, ◌≡◌, ◌≤◌,
}
use dds_rtps.ReturnCode.{ok}
use dds_rtps.Child.{Feed, eof, found, timeout}
use dds_rtps.Report.Publisher.{search_sent, sending_loop}

abbrev pub sample_texts : Text → Feed → List Text
sample_texts text [] = text ∷ []
sample_texts text (found zero text' ∷ feed) = text ∷ sample_texts text' feed
sample_texts text (found (suc i) text' ∷ feed) = text ∷ []
sample_texts text (timeout ∷ feed) = text ∷ []
sample_texts text (eof ∷ feed) = text ∷ []

-- The samples in a list of texts, up to the first text with none.
abbrev pub samples_in : List Text → List Text
samples_in [] = []
samples_in (text ∷ texts) = elim (search_sent text) [ none ↦ [] | some s ↦ s ∷ samples_in texts ]

abbrev pub last_or : Text → List Text → Text
last_or s [] = s
last_or s (t ∷ ts) = last_or t ts

last_or-append : (s t : Text) (ts : List Text) → last_or s (ts ++ t ∷ []) ≡ t
last_or-append s t [] = refl
last_or-append s t (u ∷ ts) = last_or-append u t ts

take_nil {ℓ} : {A : Type ℓ} (n : ℕ) → take {A = A} n [] ≡ []
take_nil zero = refl
take_nil (suc n) = refl

length-sample_texts : (text : Text) (feed : Feed) → 0 < length (sample_texts text feed)
length-sample_texts text [] = omega arith
length-sample_texts text (found zero text' ∷ feed) = omega arith
length-sample_texts text (found (suc i) text' ∷ feed) = omega arith
length-sample_texts text (timeout ∷ feed) = omega arith
length-sample_texts text (eof ∷ feed) = omega arith

-- The first queue of the loop.
pub sending_loop-samples_sent :
    (n : ℕ) (sent : List Text) (last_sample text : Text) (feed : Feed)
    → (sending_loop n sent last_sample text feed).samples_sent
      ≡ sent ++ take n (samples_in (sample_texts text feed))
unfolding sending_loop
sending_loop-samples_sent zero sent last_sample text feed = sym (append-nil sent)
sending_loop-samples_sent (suc n) sent last_sample text [] =
    elim (Option-cases (search_sent text)) [
      | inl missed ↦ rw (missed, sending_loop, samples_in) (sym (append-nil sent))
      | inr (s, hit) ↦ rw (hit, sending_loop, samples_in) (rw take_nil refl)
    ]
sending_loop-samples_sent (suc n) sent last_sample text (found zero text' ∷ feed) =
    elim (Option-cases (search_sent text)) [
      | inl missed ↦ rw (missed, sending_loop, samples_in) (sym (append-nil sent))
      | inr (s, hit) ↦
          rw (hit, sending_loop, samples_in)
            (sending_loop-samples_sent n (sent ++ s ∷ []) s text' feed
              ∙ append_assoc sent (s ∷ []) _)
    ]
sending_loop-samples_sent (suc n) sent last_sample text (found (suc i) text' ∷ feed) =
    elim (Option-cases (search_sent text)) [
      | inl missed ↦ rw (missed, sending_loop, samples_in) (sym (append-nil sent))
      | inr (s, hit) ↦ rw (hit, sending_loop, samples_in) (rw take_nil refl)
    ]
sending_loop-samples_sent (suc n) sent last_sample text (timeout ∷ feed) =
    elim (Option-cases (search_sent text)) [
      | inl missed ↦ rw (missed, sending_loop, samples_in) (sym (append-nil sent))
      | inr (s, hit) ↦ rw (hit, sending_loop, samples_in) (rw take_nil refl)
    ]
sending_loop-samples_sent (suc n) sent last_sample text (eof ∷ feed) =
    elim (Option-cases (search_sent text)) [
      | inl missed ↦ rw (missed, sending_loop, samples_in) (sym (append-nil sent))
      | inr (s, hit) ↦ rw (hit, sending_loop, samples_in) (rw take_nil refl)
    ]

-- The second queue holds the last one of the first.
pub sending_loop-last_sample_saved :
    (n : ℕ) (sent : List Text) (last_sample text : Text) (feed : Feed)
    → last_sample ≡ last_or [] sent
    → (sending_loop n sent last_sample text feed).last_sample_saved
      ≡ last_or [] (sending_loop n sent last_sample text feed).samples_sent ∷ []
unfolding sending_loop
sending_loop-last_sample_saved zero sent last_sample text feed h = ap (λ s. s ∷ []) h
sending_loop-last_sample_saved (suc n) sent last_sample text [] h =
    elim (Option-cases (search_sent text)) [
      | inl missed ↦ rw (missed, sending_loop) (ap (λ s. s ∷ []) h)
      | inr (s, hit) ↦ rw (hit, sending_loop) (ap (λ t. t ∷ []) (sym (last_or-append [] s sent)))
    ]
sending_loop-last_sample_saved (suc n) sent last_sample text (found zero text' ∷ feed) h =
    elim (Option-cases (search_sent text)) [
      | inl missed ↦ rw (missed, sending_loop) (ap (λ s. s ∷ []) h)
      | inr (s, hit) ↦
          rw (hit, sending_loop)
            (sending_loop-last_sample_saved n (sent ++ s ∷ []) s text' feed
              (sym (last_or-append [] s sent)))
    ]
sending_loop-last_sample_saved (suc n) sent last_sample text (found (suc i) text' ∷ feed) h =
    elim (Option-cases (search_sent text)) [
      | inl missed ↦ rw (missed, sending_loop) (ap (λ s. s ∷ []) h)
      | inr (s, hit) ↦ rw (hit, sending_loop) (ap (λ t. t ∷ []) (sym (last_or-append [] s sent)))
    ]
sending_loop-last_sample_saved (suc n) sent last_sample text (timeout ∷ feed) h =
    elim (Option-cases (search_sent text)) [
      | inl missed ↦ rw (missed, sending_loop) (ap (λ s. s ∷ []) h)
      | inr (s, hit) ↦ rw (hit, sending_loop) (ap (λ t. t ∷ []) (sym (last_or-append [] s sent)))
    ]
sending_loop-last_sample_saved (suc n) sent last_sample text (eof ∷ feed) h =
    elim (Option-cases (search_sent text)) [
      | inl missed ↦ rw (missed, sending_loop) (ap (λ s. s ∷ []) h)
      | inr (s, hit) ↦ rw (hit, sending_loop) (ap (λ t. t ∷ []) (sym (last_or-append [] s sent)))
    ]

-- The code is OK exactly if all samples are there and one more reply matches.
pub sending_loop-ok_iff :
    (n : ℕ) (sent : List Text) (last_sample text : Text) (feed : Feed)
    → ((sending_loop n sent last_sample text feed).code ≡ some ok)
      ↔ (n ≤ length (samples_in (sample_texts text feed)) × n < length (sample_texts text feed))
unfolding sending_loop
sending_loop-ok_iff zero sent last_sample text feed = ground (arith, length-sample_texts text feed)
sending_loop-ok_iff (suc n) sent last_sample text [] = elim (Option-cases (search_sent text)) [
  | inl missed ↦ rw (missed, sending_loop, samples_in) (ground arith)
  | inr (s, hit) ↦ rw (hit, sending_loop, samples_in) (ground arith)
]
sending_loop-ok_iff (suc n) sent last_sample text (found zero text' ∷ feed) =
    elim (Option-cases (search_sent text)) [
      | inl missed ↦ rw (missed, sending_loop, samples_in) (ground arith)
      | inr (s, hit) ↦
          rw (hit, sending_loop, samples_in)
            (ground (arith, sending_loop-ok_iff n (sent ++ s ∷ []) s text' feed))
    ]
sending_loop-ok_iff (suc n) sent last_sample text (found (suc i) text' ∷ feed) =
    elim (Option-cases (search_sent text)) [
      | inl missed ↦ rw (missed, sending_loop, samples_in) (ground arith)
      | inr (s, hit) ↦ rw (hit, sending_loop, samples_in) (ground arith)
    ]
sending_loop-ok_iff (suc n) sent last_sample text (timeout ∷ feed) =
    elim (Option-cases (search_sent text)) [
      | inl missed ↦ rw (missed, sending_loop, samples_in) (ground arith)
      | inr (s, hit) ↦ rw (hit, sending_loop, samples_in) (ground arith)
    ]
sending_loop-ok_iff (suc n) sent last_sample text (eof ∷ feed) =
    elim (Option-cases (search_sent text)) [
      | inl missed ↦ rw (missed, sending_loop, samples_in) (ground arith)
      | inr (s, hit) ↦ rw (hit, sending_loop, samples_in) (ground arith)
    ]
