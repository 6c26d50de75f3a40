-- ===== src/Checks/Ordering/Loop.antt =====
-- The loop of the order checks: what its verdict says of the samples that were printed.
use dds_rtps.Prelude.{
  ℕ, Option, Text, [], inl, inr, none, or_else-some, refl, some, some_inj, ◌+◌, ◌∷◌, ◌≡◌, ◌≢◌, ◌⊎◌,
}
use dds_rtps.ReturnCode.{data_not_correct, ok}
use dds_rtps.Checks.Ordering.{Tracks, observe, order_loop}
use dds_rtps.Checks.Ordering.Rounds.{
  count_sample-eq-raised, count_sample-eq-returned, is_first-ne-raised, is_first-ne-true,
  order_round-eq-raised, order_round-eq-returned, order_round-ok_silent,
}
use dds_rtps.Checks.Ordering.Trace.{printed}
use dds_rtps.Checks.Ordering.Tracks.{
  Decides, Follows, Settled, Visited, last_size, visit-Visited, visit-none,
}
use dds_rtps.Checks.Ordering.Verdicts.{
  IsBroken, IsBroken-now, IsBroken-visit, IsOrdered, IsOrdered-count, IsOrdered-done,
  IsOrdered-visit,
}
use dds_rtps.Checks.Table.{first_color}
use dds_rtps.Child.{Exception, Feed, eof, found, raised, returned, timeout}
use dds_rtps.Samples.{Sample}

module _ (advance : ℕ → ℕ → Option ℕ) (R : ℕ → ℕ → Type 0) (d : Decides advance R) where
  -- The samples that a reply is preceded by: none, or one that the loop accepted.
  observe-eq-some :
      (o : Option Sample) (tracks t : Tracks)
      → Settled tracks
      → observe advance o tracks ≡ some t
      → ((o ≡ none) × (tracks ≡ t)) ⊎ ((s : Sample) × (o ≡ some s) × Visited advance R d s tracks t)
  unfolding observe
  observe-eq-some none tracks t settled e = inl (refl, some_inj e)
  observe-eq-some (some s) tracks t settled e =
      inr (s, refl, visit-Visited advance R d s tracks settled t e)

  observe-eq-none :
      (o : Option Sample) (tracks : Tracks)
      → Settled tracks
      → observe advance o tracks ≡ none
      → (s : Sample) × (o ≡ some s) × (¬ Follows R (last_size tracks s.color) s.size)
  unfolding observe
  observe-eq-none none tracks settled e = cc e
  observe-eq-none (some s) tracks settled e = (s, refl, visit-none advance R d s tracks settled e)

  pub order_loop-IsOrdered :
      (tracks : Tracks) (n : ℕ) (text : Text) (feed : Feed)
      → Settled tracks
      → order_loop advance tracks n text feed ≡ returned ok
      → IsOrdered R n tracks (printed text feed)
  unfolding order_loop
  order_loop-IsOrdered tracks n text [] settled e =
      IsOrdered-done R n tracks _ (order_round-ok_silent n _ e)
  order_loop-IsOrdered tracks n text (timeout ∷ feed) settled e =
      IsOrdered-done R n tracks _ (order_round-ok_silent n _ e)
  order_loop-IsOrdered tracks n text (eof ∷ feed) settled e =
      IsOrdered-done R n tracks _ (order_round-ok_silent n _ e)
  order_loop-IsOrdered tracks n text (found i text' ∷ feed) settled e =
      elim (order_round-eq-returned n _ _ e) [
        | inl (done, _) ↦ IsOrdered-done R n tracks _ done
        | inr (_, inl (_, bad)) ↦ cc bad
        | inr (_, inr (t, seen, later)) ↦ elim (observe-eq-some _ tracks t settled seen) [
          | inl (blank, same) ↦ rw blank (elim (count_sample-eq-returned i _ n _ later) [
            | inl on ↦ order_loop-IsOrdered tracks n text' feed settled (rw (← same) at on)
            | inr (counted, _) ↦ absurd (is_first-ne-true _ (rw blank at counted))
          ])
          | inr (s, shown, v) ↦ rw shown (elim (count_sample-eq-returned i _ n _ later) [
            | inl on ↦
                IsOrdered-visit advance R d v n _ (order_loop-IsOrdered t n text' feed v.settled on)
            | inr (counted, on) ↦
                IsOrdered-count advance R d v n _ (rw shown at counted)
                  (order_loop-IsOrdered t (n + 1) text' feed v.settled on)
          ])
        ]
      ]

  pub order_loop-IsBroken :
      (tracks : Tracks) (n : ℕ) (text : Text) (feed : Feed)
      → Settled tracks
      → order_loop advance tracks n text feed ≡ returned data_not_correct
      → IsBroken R tracks (printed text feed)
  unfolding order_loop
  order_loop-IsBroken tracks n text [] settled e = elim (order_round-eq-returned n _ _ e) [
    | inl (_, bad) ↦ absurd (bad refl)
    | inr (_, inl (refused, _)) ↦
        let (s, shown, h) = observe-eq-none _ tracks settled refused in
        rw shown (IsBroken-now advance R d s tracks _ h)
    | inr (_, inr (t, _, bad)) ↦ cc bad
  ]
  order_loop-IsBroken tracks n text (timeout ∷ feed) settled e =
      elim (order_round-eq-returned n _ _ e) [
        | inl (_, bad) ↦ absurd (bad refl)
        | inr (_, inl (refused, _)) ↦
            let (s, shown, h) = observe-eq-none _ tracks settled refused in
            rw shown (IsBroken-now advance R d s tracks _ h)
        | inr (_, inr (t, _, bad)) ↦ cc bad
      ]
  order_loop-IsBroken tracks n text (eof ∷ feed) settled e =
      elim (order_round-eq-returned n _ _ e) [
        | inl (_, bad) ↦ absurd (bad refl)
        | inr (_, inl (refused, _)) ↦
            let (s, shown, h) = observe-eq-none _ tracks settled refused in
            rw shown (IsBroken-now advance R d s tracks _ h)
        | inr (_, inr (t, _, bad)) ↦ cc bad
      ]
  order_loop-IsBroken tracks n text (found i text' ∷ feed) settled e =
      elim (order_round-eq-returned n _ _ e) [
        | inl (_, bad) ↦ absurd (bad refl)
        | inr (_, inl (refused, _)) ↦
            let (s, shown, h) = observe-eq-none _ tracks settled refused in
            rw shown (IsBroken-now advance R d s tracks _ h)
        | inr (_, inr (t, seen, later)) ↦ elim (observe-eq-some _ tracks t settled seen) [
          | inl (blank, same) ↦ rw blank (elim (count_sample-eq-returned i _ n _ later) [
            | inl on ↦ order_loop-IsBroken tracks n text' feed settled (rw (← same) at on)
            | inr (counted, _) ↦ absurd (is_first-ne-true _ (rw blank at counted))
          ])
          | inr (s, shown, v) ↦ rw shown (elim (count_sample-eq-returned i _ n _ later) [
            | inl on ↦
                IsBroken-visit advance R d v _ (order_loop-IsBroken t n text' feed v.settled on)
            | inr (counted, on) ↦
                IsBroken-visit advance R d v _
                  (order_loop-IsBroken t (n + 1) text' feed v.settled on)
          ])
        ]
      ]

  pub order_loop-ne-raised :
      (tracks : Tracks) (n : ℕ) (text : Text) (feed : Feed) (x : Exception)
      → Settled tracks
      → order_loop advance tracks n text feed ≢ raised x
  unfolding order_loop
  order_loop-ne-raised tracks n text [] x settled e =
      let (t, _, bad) = order_round-eq-raised n _ _ e in cc bad
  order_loop-ne-raised tracks n text (timeout ∷ feed) x settled e =
      let (t, _, bad) = order_round-eq-raised n _ _ e in cc bad
  order_loop-ne-raised tracks n text (eof ∷ feed) x settled e =
      let (t, _, bad) = order_round-eq-raised n _ _ e in cc bad
  order_loop-ne-raised tracks n text (found i text' ∷ feed) x settled e =
      let (t, seen, later) = order_round-eq-raised n _ _ e in
      elim (observe-eq-some _ tracks t settled seen) [
        | inl (blank, same) ↦ elim (count_sample-eq-raised i _ n _ later) [
          | inl first ↦ is_first-ne-raised _ (first_color t) x (λ s shown. (cc)) first
          | inr (m, on) ↦ order_loop-ne-raised t m text' feed x (rw (← same) settled) on
        ]
        | inr (s, shown, v) ↦ elim (count_sample-eq-raised i _ n _ later) [
          | inl first ↦
              is_first-ne-raised _ (first_color t) x
                (λ s shown. rw v.first (or_else-some (first_color tracks) _)) first
          | inr (m, on) ↦ order_loop-ne-raised t m text' feed x v.settled on
        ]
      ]
