-- ===== src/Discovery/Merging.antt =====
-- What the file of runs keeps when a run is added.
use dds_rtps.Prelude.{
  Bool-cases, Option, Text, ap, arith, codes, false, inl, inr, none, refl, some, sym, text_eq,
  text_eq_iff, true, ◌∙◌, ◌≡◌, ◌≢◌,
}
use dds_rtps.Child.{returned}
use dds_rtps.Discovery.Json.{Fields, Json, add_field, json_dict, lookup, no_fields, set_at}
use dds_rtps.Discovery.Runs.{first_key, join_dict, join_runs, runs_file, start_runs}

lookup-set_at_self : (key : Text) (v : Json) (fs : Fields) → lookup key (set_at key v fs) ≡ some v
unfolding lookup set_at
lookup-set_at_self key v no_fields = rw ((text_eq_iff key key).1 refl) refl
lookup-set_at_self key v (add_field k u fs) = elim (Bool-cases (text_eq k key)) [
  | inl e ↦ rw e (rw e refl)
  | inr e ↦ rw e (rw e (lookup-set_at_self key v fs))
]

lookup-set_at_ne :
    (key other : Text) (v : Json) (fs : Fields)
    → key ≢ other
    → lookup other (set_at key v fs) ≡ lookup other fs
unfolding lookup set_at
lookup-set_at_ne key other v no_fields ne = ground (arith, text_eq_iff key other)
lookup-set_at_ne key other v (add_field k u fs) ne = elim (Bool-cases (text_eq k key)) [
  | inl e ↦ let differ : text_eq k other ≡ false = differ_of k key other e ne in rw (e, differ) refl
  | inr e ↦ elim (Bool-cases (text_eq k other)) [
    | inl h ↦ rw (e, h) refl
    | inr h ↦ rw (e, h) (lookup-set_at_ne key other v fs ne)
  ]
]
  where
    differ_of : (k key other : Text) → text_eq k key ≡ true → key ≢ other → text_eq k other ≡ false
    differ_of k key other e ne = elim (Bool-cases (text_eq k other)) [
      | inl h ↦ absurd (ne (sym ((text_eq_iff k key).0 e) ∙ (text_eq_iff k other).0 h))
      | inr h ↦ h
    ]

-- The value under a key of a file
abbrev pub field_at : Text → Json → Option Json
field_at key (json_dict fs) = lookup key fs
field_at key other = none

-- The run under a key of a file of runs
abbrev pub run_of : Text → Option Json → Option Json
run_of key none = none
run_of key (some v) = field_at key v

abbrev pub run_at : Text → Json → Option Json
run_at key file = run_of key (field_at (codes "runs") file)

join_runs-dict :
    (timestamp key : Text) (summary : Json) (existing rs : Fields)
    → lookup (codes "runs") existing ≡ some (json_dict rs)
    → join_runs timestamp key summary (json_dict existing)
      ≡ json_dict (set_at (codes "runs") (json_dict (set_at key summary rs)) existing)
unfolding join_runs
join_runs-dict timestamp key summary existing rs e = ap (join_dict timestamp key summary existing) e

runs_file-run : (timestamp t : Text) (rs : Fields) → run_at t (runs_file timestamp rs) ≡ lookup t rs
unfolding lookup text_eq
runs_file-run timestamp t rs = refl

lookup_own : (t : Text) (v : Json) → lookup t (add_field t v no_fields) ≡ some v
unfolding lookup
lookup_own t v = rw ((text_eq_iff t t).1 refl) refl

set_at-own :
    (key t : Text) (v u : Json)
    → key ≡ t
    → set_at key v (add_field t u no_fields) ≡ add_field key v no_fields
unfolding set_at
set_at-own key t v u q =
    rw ((text_eq_iff t key).1 (sym q)) (ap (λ s. add_field s v no_fields) (sym q))

-- A run that is added to a file of runs stands there under its key, and all else that the file holds
-- is as it was: the other runs, and the values under the other keys.
pub join_runs-adds :
    (timestamp key : Text) (summary : Json) (existing rs : Fields)
    → lookup (codes "runs") existing ≡ some (json_dict rs)
    → (run_at key (join_runs timestamp key summary (json_dict existing)) ≡ some summary)
      × ((other : Text)
          → key ≢ other
          → run_at other (join_runs timestamp key summary (json_dict existing)) ≡ lookup other rs)
      × ((field : Text)
          → codes "runs" ≢ field
          → field_at field (join_runs timestamp key summary (json_dict existing))
            ≡ lookup field existing)
join_runs-adds timestamp key summary existing rs e =
    let same = join_runs-dict timestamp key summary existing rs e in
    let new = json_dict (set_at key summary rs) in
    let runs = λ (k : Text).
      ap (λ f. run_at k f) same ∙ ap (run_of k) (lookup-set_at_self (codes "runs") new existing) in
    (
      runs key ∙ lookup-set_at_self key summary rs,
      λ other ne. runs other ∙ lookup-set_at_ne key other summary rs ne,
      λ field ne.
          ap (λ f. field_at field f) same ∙ lookup-set_at_ne (codes "runs") field new existing ne,
    )

-- A file with a single summary becomes a file of runs: the new run stands under its key, and the
-- summary of the file under the key that its own metadata give, if that is another one. If it is the
-- same one, only the new run is left.
pub join_runs-starts :
    (timestamp key k : Text) (summary : Json) (existing : Fields)
    → lookup (codes "runs") existing ≡ none
    → first_key existing ≡ returned k
    → (run_at key (join_runs timestamp key summary (json_dict existing)) ≡ some summary)
      × (key ≢ k
          → run_at k (join_runs timestamp key summary (json_dict existing))
            ≡ some (json_dict existing))
      × (key ≡ k
          → join_runs timestamp key summary (json_dict existing)
            ≡ runs_file timestamp (add_field key summary no_fields))
unfolding join_runs
join_runs-starts timestamp key k summary existing e f =
    let same =
      ap (join_dict timestamp key summary existing) e
      ∙ ap (start_runs timestamp key summary existing) f in
    let single = add_field k (json_dict existing) no_fields in
    (
      ap (λ x. run_at key x) same
          ∙ found_run key (set_at key summary single)
          ∙ lookup-set_at_self key summary single,
      λ ne.
          ap (λ x. run_at k x) same
          ∙ found_run k (set_at key summary single)
          ∙ lookup-set_at_ne key k summary single ne
          ∙ lookup_one k existing,
      λ q. same ∙ ap (runs_file timestamp) (replaced k existing q),
    )
  where
    found_run : (t : Text) (rs : Fields) → run_at t (runs_file timestamp rs) ≡ lookup t rs
    found_run t rs = runs_file-run timestamp t rs

    lookup_one :
        (t : Text) (fs : Fields)
        → lookup t (add_field t (json_dict fs) no_fields) ≡ some (json_dict fs)
    lookup_one t fs = lookup_own t (json_dict fs)

    replaced :
        (t : Text) (fs : Fields)
        → key ≡ t
        → set_at key summary (add_field t (json_dict fs) no_fields)
          ≡ add_field key summary no_fields
    replaced t fs q = set_at-own key t summary (json_dict fs) q
