-- ===== src/Report/Handshake.antt =====
-- The handshake of a process as a table: an independent description of the nested calls of `expect` in
-- `run_publisher_shape_main` and `run_subscriber_shape_main`.
use dds_rtps.Prelude.{ℕ, List, Text, [], none, some, suc, zero, ◌∷◌}
use dds_rtps.ReturnCode.{ReturnCode}
use dds_rtps.Child.{Feed, eof, found, timeout}
use dds_rtps.Report.{Produced}

-- One call of `expect`: the codes of the patterns behind the first one, in order, and the code for a
-- TIMEOUT or EOF.
pub record Stage : Type 0 where
  pub failures : List ReturnCode
  pub silence : ReturnCode

-- The code at an index, where the table has one
abbrev pub code_at : ℕ → List ReturnCode → Produced
code_at i [] = none
code_at zero (c ∷ cs) = some c
code_at (suc i) (c ∷ cs) = code_at i cs

-- The first reply that is not the pattern of its stage tells the code; if there is none, `success`
-- goes on with the text of the last stage and the replies behind it.
abbrev pub follow {ℓ} :
    {A : Type ℓ} → (Produced → A) → (Text → Feed → A) → Stage → List Stage → Feed → A
follow failed success stage stages [] = failed (some stage.silence)
follow failed success stage stages (timeout ∷ feed) = failed (some stage.silence)
follow failed success stage stages (eof ∷ feed) = failed (some stage.silence)
follow failed success stage stages (found (suc i) text ∷ feed) = failed (code_at i stage.failures)
follow failed success stage [] (found zero text ∷ feed) = success text feed
follow failed success stage (next ∷ stages) (found zero text ∷ feed) =
    follow failed success next stages feed
