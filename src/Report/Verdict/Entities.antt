-- ===== src/Report/Verdict/Entities.antt =====
-- The processes of a test: one for each list of parameters, with a number and a queue of its own.
use dds_rtps.Prelude.{
  ℕ, List, Text, [], ap, arith, length, ltb, refl, subst, suc, sym, true, ◌+◌, ◌↔◌, ◌∙◌, ◌∷◌, ◌≡◌,
  ◌≤◌,
}
use dds_rtps.ReturnCode.{ReturnCode}
use dds_rtps.Child.{>>=-eq-returned, Feed, returned, returned_inj}
use dds_rtps.Report.Subscriber.{Check}
use dds_rtps.Report.Verdict.{
  Kind, Process, count_kind, create_processes, kind_of, new_process, prepare, publisher, result_ok,
  return_codes, run_test, subscriber,
}
use dds_rtps.Report.Verdict.Laws.{codes_of, judge-result_ok_iff}

abbrev number_after : Kind → ℕ × ℕ → ℕ
number_after publisher n = n.0 + 1
number_after subscriber n = n.1 + 1

-- The processes stand in the order of their parameters, each has its index, and the number of each
-- is one more than the count of those of its kind before it.
abbrev pub AreNumbered : ℕ → ℕ × ℕ → List Text → List Process → Type 0
AreNumbered i n [] ps = ps ≡ []
AreNumbered i n (element ∷ parameters) [] = ⊥
AreNumbered i n (element ∷ parameters) (p ∷ ps) =
    (p.parameters ≡ element)
    × (kind_of element ≡ returned p.kind)
    × (p.produced_code_index ≡ i)
    × (p.number ≡ number_after p.kind n)
    × AreNumbered (i + 1) (count_kind p.kind n) parameters ps

abbrev AreUpTo : ℕ × ℕ → ℕ × ℕ → Type 0
AreUpTo n m = (n.0 ≤ m.0) × (n.1 ≤ m.1)

prepare-AreUpTo :
    (parameters : List Text) (n m : ℕ × ℕ) → prepare parameters n ≡ returned m → AreUpTo n m
unfolding prepare
prepare-AreUpTo [] n m e =
    let e' : n ≡ m = returned_inj e in subst (λ m. AreUpTo n m) e' (omega arith, omega arith)
prepare-AreUpTo (element ∷ parameters) n m e =
    let (k, known, more) = >>=-eq-returned (kind_of element) _ m e in
    counted k (prepare-AreUpTo parameters (count_kind k n) m more)
  where
    counted : (k : Kind) → AreUpTo (count_kind k n) m → AreUpTo n m
    counted publisher (a, b) = (omega arith, omega arith)
    counted subscriber (a, b) = (omega arith, omega arith)

module _ (name_executable_pub name_executable_sub : Text) where
  new_process-returned :
      (available : ℕ × ℕ) (k : Kind) (i : ℕ) (n : ℕ × ℕ) (element : Text)
      → AreUpTo (count_kind k n) available
      → (p : Process) × (new_process name_executable_pub name_executable_sub available k i n element
          ≡ returned p)
        × (p.parameters ≡ element)
        × (p.kind ≡ k)
        × (p.produced_code_index ≡ i)
        × (p.number ≡ number_after k n)
  unfolding new_process
  new_process-returned available publisher i n element h =
      let room : ltb n.0 available.0 ≡ true = ground (arith, h.0) in
      (
        record {
          kind = publisher;
          number = n.0 + 1;
          name_executable = name_executable_pub;
          parameters = element;
          produced_code_index = i;
        },
        rw room refl,
        refl,
        refl,
        refl,
        refl,
      )
  new_process-returned available subscriber i n element h =
      let room : ltb n.1 available.1 ≡ true = ground (arith, h.1) in
      (
        record {
          kind = subscriber;
          number = n.1 + 1;
          name_executable = name_executable_sub;
          parameters = element;
          produced_code_index = i;
        },
        rw room refl,
        refl,
        refl,
        refl,
        refl,
      )

  create_processes-AreNumbered_from :
      (parameters : List Text) (i : ℕ) (n available : ℕ × ℕ)
      → prepare parameters n ≡ returned available
      → (ps : List Process) × (create_processes name_executable_pub name_executable_sub available i
            n parameters
          ≡ returned ps)
        × AreNumbered i n parameters ps
  unfolding prepare create_processes
  create_processes-AreNumbered_from [] i n available e = ([], refl, refl)
  create_processes-AreNumbered_from (element ∷ parameters) i n available e =
      let (k, known, more) = >>=-eq-returned (kind_of element) _ available e in
      let (p, made, same, alike, index, number) =
        new_process-returned available k i n element
          (prepare-AreUpTo parameters (count_kind k n) available more) in
      let (ps, rest, numbered) =
        create_processes-AreNumbered_from parameters (i + 1) (count_kind k n) available more in
      (
        p ∷ ps,
        rw (known, made, rest, create_processes) refl,
        rw alike (same, known, index, number, numbered),
      )

  -- Once the first loop of a test has found each list of parameters to be a publisher's or a
  -- subscriber's, the second loop reads no event or queue out of range: it creates one process for
  -- each list, in their order, with its index, of the list's kind, and numbered among those of its
  -- kind from 1, so that no two publishers share a queue.
  pub create_processes-AreNumbered :
      (parameters : List Text) (available : ℕ × ℕ)
      → prepare parameters (0, 0) ≡ returned available
      → (ps : List Process) × (create_processes name_executable_pub name_executable_sub available 0
            (0, 0)
            parameters
          ≡ returned ps)
        × AreNumbered 0 (0, 0) parameters ps
  create_processes-AreNumbered parameters available =
      create_processes-AreNumbered_from parameters 0 (0, 0) available

AreNumbered-length :
    (i : ℕ) (n : ℕ × ℕ) (parameters : List Text) (ps : List Process)
    → AreNumbered i n parameters ps
    → length ps ≡ length parameters
AreNumbered-length i n [] [] h = refl
AreNumbered-length i n [] (p ∷ ps) h = cc h
AreNumbered-length i n (element ∷ parameters) [] h = absurd h
AreNumbered-length i n (element ∷ parameters) (p ∷ ps) (_, _, _, _, h) =
    ap suc (AreNumbered-length (i + 1) (count_kind p.kind n) parameters ps h)

length-return_codes :
    (check : Check) (ps : List Process) (feeds : List Feed)
    → length (return_codes check ps feeds) ≡ length ps
length-return_codes check [] feeds = refl
length-return_codes check (p ∷ ps) [] = ap suc (length-return_codes check ps [])
length-return_codes check (p ∷ ps) (feed ∷ feeds) = ap suc (length-return_codes check ps feeds)

-- A test whose lists of parameters are each a publisher's or a subscriber's, with as many expected
-- codes, runs a process for each of them, numbered as they stand, and passes exactly if the codes
-- that these processes produce are the expected ones.
pub run_test-result_ok_iff :
    (name_executable_pub name_executable_sub : Text) (parameters : List Text)
    (expected_codes : List ReturnCode) (check : Check) (feeds : List Feed) (available : ℕ × ℕ)
    → prepare parameters (0, 0) ≡ returned available
    → length parameters ≡ length expected_codes
    → (ps : List Process) × AreNumbered 0 (0, 0) parameters ps
      × ((run_test name_executable_pub name_executable_sub parameters expected_codes check feeds
            ≡ returned result_ok)
          ↔ (return_codes check ps feeds ≡ codes_of expected_codes))
unfolding run_test
run_test-result_ok_iff name_executable_pub name_executable_sub parameters expected check feeds
      available prepared h =
    let (ps, made, numbered) =
      create_processes-AreNumbered name_executable_pub name_executable_sub parameters available
        prepared in
    (
      ps,
      numbered,
      rw (prepared, made, run_test)
          (judge-result_ok_iff ps expected (return_codes check ps feeds) (
            sym h
            ∙ sym (AreNumbered-length 0 (0, 0) parameters ps numbered)
            ∙ sym (length-return_codes check ps feeds))),
    )
