-- ===== src/Checks/NotAlive/Laws.antt =====
-- What OK of the two checks means for the output.
-- The outputs up to the first TIMEOUT or EOF.
use dds_rtps.Prelude.{
  ℕ, Bool, Bool-cases, List, Text, [], ap, arith, false, inl, inr, length, ltb, refl, suc, true,
  zero, ◌++◌, ◌+◌, ◌∷◌, ◌≡◌, ◌≤◌, ◌⊎◌,
}
use dds_rtps.ReturnCode.{ReturnCode, ok}
use dds_rtps.Checks.{max_samples_read}
use dds_rtps.Checks.NotAlive.{
  ColorLists, Notice, a_report, a_sample, count_notice, not_alive_loop, not_alive_round,
  not_alive_verdict, nothing, notice, take_notice,
}
use dds_rtps.Child.{Feed, Outcome, eof, found, raised, returned, returned_inj, timeout}

module _ (state : Text) where
  abbrev pub notices_in : Text → Feed → List Notice
  notices_in text [] = notice state text ∷ []
  notices_in text (found i text' ∷ feed) = notice state text ∷ notices_in text' feed
  notices_in text (timeout ∷ feed) = notice state text ∷ []
  notices_in text (eof ∷ feed) = notice state text ∷ []

abbrev pub sampled : List Notice → List Text
sampled [] = []
sampled (a_sample c ∷ ns) = c ∷ sampled ns
sampled (a_report c ∷ ns) = sampled ns
sampled (nothing ∷ ns) = sampled ns

abbrev pub reported : List Notice → List Text
reported [] = []
reported (a_sample c ∷ ns) = reported ns
reported (a_report c ∷ ns) = c ∷ reported ns
reported (nothing ∷ ns) = reported ns

abbrev pub take_all : List Notice → ColorLists → ColorLists
take_all [] cs = cs
take_all (n ∷ ns) cs = take_all ns (take_notice n cs).0

-- Only a report stops the loop.
take_notice-stops :
    (n : Notice) (cs : ColorLists) → (take_notice n cs).1 ≡ true → (c : Text) × (n ≡ a_report c)
unfolding take_notice
take_notice-stops (a_sample c) cs e = cc e
take_notice-stops (a_report c) cs e = (c, refl)
take_notice-stops nothing cs e = cc e

round-eq-ok :
    (samples_read : ℕ) (n : Notice) (cs : ColorLists) (more : ColorLists → Outcome ReturnCode)
    → not_alive_round samples_read n cs more ≡ returned ok
    → ((max_samples_read ≤ samples_read) × (not_alive_verdict cs ≡ ok))
      ⊎ (((take_notice n cs).1 ≡ true) × (not_alive_verdict (take_notice n cs).0 ≡ ok))
      ⊎ (more (take_notice n cs).0 ≡ returned ok)
unfolding not_alive_round
round-eq-ok samples_read n cs more e = elim (Bool-cases (ltb samples_read max_samples_read)) [
  | inr enough ↦ inl (ground arith, returned_inj (rw enough at e))
  | inl more_to_read ↦ elim (Bool-cases (take_notice n cs).1) [
    | inl stop ↦ inr (inl (stop, returned_inj (rw (more_to_read, stop, not_alive_round) at e)))
    | inr go_on ↦ inr (inr (rw (more_to_read, go_on, not_alive_round) at e))
  ]
]

-- Why a run reads no further: there are no more outputs, it has read enough, or the last one is a
-- report.
abbrev pub Stops : ℕ → List Notice → List Notice → Type 0
Stops samples_read read rest =
    (rest ≡ [])
    ⊎ (max_samples_read ≤ samples_read + length read)
    ⊎ ((before : List Notice) × (c : Text) × (read ≡ before ++ a_report c ∷ []))

Stops-next :
    (n : Notice) (read rest : List Notice) (m samples_read : ℕ)
    → m ≤ samples_read + 1
    → Stops m read rest
    → Stops samples_read (n ∷ read) rest
Stops-next n read rest m samples_read h (inl all) = inl all
Stops-next n read rest m samples_read h (inr (inl enough)) = inr (inl (omega (arith, h, enough)))
Stops-next n read rest m samples_read h (inr (inr (before, c, e))) =
    inr (inr (n ∷ before, c, ap (λ l. n ∷ l) e))

-- The notices that a run has read before it came to its verdict.
pub record Told (samples_read : ℕ) (cs : ColorLists) (outputs : List Notice) : Type 0 where
  pub read : List Notice
  pub rest : List Notice
  pub split : outputs ≡ read ++ rest
  pub stops : Stops samples_read read rest
  pub judged : not_alive_verdict (take_all read cs) ≡ ok

Told-next :
    (m samples_read : ℕ) (n : Notice) (cs : ColorLists) (outputs : List Notice)
    → m ≤ samples_read + 1
    → Told m (take_notice n cs).0 outputs
    → Told samples_read cs (n ∷ outputs)
Told-next m samples_read n cs outputs h t = record {
  read = n ∷ t.read;
  rest = t.rest;
  split = ap (λ l. n ∷ l) t.split;
  stops = Stops-next n t.read t.rest m samples_read h t.stops;
  judged = t.judged;
}

Told-enough :
    (samples_read : ℕ) (cs : ColorLists) (outputs : List Notice)
    → max_samples_read ≤ samples_read
    → not_alive_verdict cs ≡ ok
    → Told samples_read cs outputs
Told-enough samples_read cs outputs enough h = record {
  read = [];
  rest = outputs;
  split = refl;
  stops = inr (inl (omega (arith, enough)));
  judged = h;
}

Told-stopped :
    (samples_read : ℕ) (n : Notice) (cs : ColorLists) (outputs : List Notice)
    → (take_notice n cs).1 ≡ true
    → not_alive_verdict (take_notice n cs).0 ≡ ok
    → Told samples_read cs (n ∷ outputs)
Told-stopped samples_read n cs outputs stop h =
    let (c, e) = take_notice-stops n cs stop in
    record {
      read = n ∷ [];
      rest = outputs;
      split = refl;
      stops = inr (inr ([], c, ap (λ x. x ∷ []) e));
      judged = h;
    }

Told-last :
    (samples_read : ℕ) (n : Notice) (cs : ColorLists)
    → not_alive_verdict (take_notice n cs).0 ≡ ok
    → Told samples_read cs (n ∷ [])
Told-last samples_read n cs h = record {
  read = n ∷ [];
  rest = [];
  split = refl;
  stops = inl refl;
  judged = h;
}

count_notice-goes-on :
    (i : ℕ) (first : Outcome Bool) (n : ℕ) (more : ℕ → Outcome ReturnCode) (c : ReturnCode)
    → count_notice i first n more ≡ returned c
    → (m : ℕ) × (m ≤ n + 1) × (more m ≡ returned c)
count_notice-goes-on zero (returned true) n more c e = (n + 1, omega arith, e)
count_notice-goes-on zero (returned false) n more c e = (n, omega arith, e)
count_notice-goes-on zero (raised x) n more c e = cc e
count_notice-goes-on (suc i) first n more c e = (n, omega arith, e)

module _ (state : Text) where
  pub not_alive_loop-Told :
      (cs : ColorLists) (n : ℕ) (text : Text) (feed : Feed)
      → not_alive_loop state cs n text feed ≡ returned ok
      → Told n cs (notices_in state text feed)
  unfolding not_alive_loop
  not_alive_loop-Told cs n text [] e = elim (round-eq-ok n (notice state text) cs _ e) [
    | inl (limit, now) ↦ Told-enough n cs _ limit now
    | inr (inl (stop, here)) ↦ Told-stopped n (notice state text) cs _ stop here
    | inr (inr later) ↦ cc later
  ]
  not_alive_loop-Told cs n text (eof ∷ feed) e = elim (round-eq-ok n (notice state text) cs _ e) [
    | inl (limit, now) ↦ Told-enough n cs _ limit now
    | inr (inl (stop, here)) ↦ Told-stopped n (notice state text) cs _ stop here
    | inr (inr later) ↦ cc later
  ]
  not_alive_loop-Told cs n text (timeout ∷ feed) e =
      elim (round-eq-ok n (notice state text) cs _ e) [
        | inl (limit, now) ↦ Told-enough n cs _ limit now
        | inr (inl (stop, here)) ↦ Told-stopped n (notice state text) cs _ stop here
        | inr (inr later) ↦ Told-last n (notice state text) cs (returned_inj later)
      ]
  not_alive_loop-Told cs n text (found i text' ∷ feed) e =
      elim (round-eq-ok n (notice state text) cs _ e) [
        | inl (limit, now) ↦ Told-enough n cs _ limit now
        | inr (inl (stop, here)) ↦ Told-stopped n (notice state text) cs _ stop here
        | inr (inr later) ↦
            let (m, h, on) = count_notice-goes-on i _ n _ ok later in
            Told-next m n (notice state text) cs _ h
              (not_alive_loop-Told (take_notice (notice state text) cs).0 m text' feed on)
      ]
