-- ===== src/Discovery/Endpoints.antt =====
-- What stays true of the list of endpoints while nodes are searched.
use dds_rtps.Prelude.{
  All, Bool, Bool-cases, List, Option, [], ap, append-nil, append_assoc, arith, false, inl, inr,
  none, refl, some, some_inj, subst, sym, true, ◌&&◌, ◌++◌, ◌∙◌, ◌∷◌, ◌≡◌,
}
use dds_rtps.Child.{Outcome, raised, returned, ◌>>=◌}
use dds_rtps.Child.Returning.{Ensures, Ensures->>=}
use dds_rtps.Discovery.Json.{
  Fields, Items, Json, add_field, add_item, json_dict, json_int, json_list, json_null, json_text,
  no_fields, no_items,
}
use dds_rtps.Discovery.Sedp.{
  Candidate, Endpoint, add_endpoint, endpoint_of, enter_endpoint, enter_or, extract_fields,
  extract_items, extract_sedp_endpoints, has_endpoint, inspect_cand, no_candidate, same_endpoint,
  tells_endpoint, text_or,
}
use dds_rtps.Prelude.Distinct.{All-append, AreDistinct, AreDistinct-snoc}
use dds_rtps.Texts.Edit.{is_filled}

-- A listed endpoint has a topic, a type and a guid.
pub record IsListed (e : Endpoint) : Type 0 where
  pub with_topic : is_filled e.topic_name ≡ true
  pub with_type : is_filled e.type_name ≡ true
  pub with_guid : is_filled e.endpoint_guid ≡ true

-- Two endpoints of the list differ in guid or topic, and each is well formed.
abbrev pub AreListed : List Endpoint → Type 0
AreListed eps = AreDistinct same_endpoint eps × All IsListed eps

and_and : (a b c : Bool) → a && b && c ≡ true → (a ≡ true) × (b ≡ true) × (c ≡ true)
and_and true true true h = (refl, refl, refl)
and_and true true false h = cc h
and_and true false c h = cc h
and_and false b c h = cc h

pub endpoint_of-IsListed :
    (ip : Json) (cand : Candidate) (e : Endpoint) → endpoint_of ip cand ≡ some e → IsListed e
unfolding endpoint_of
endpoint_of-IsListed ip cand e h =
    elim (Bool-cases (
      is_filled (text_or cand.topic_name [])
      && is_filled (text_or cand.type_name [])
      && is_filled (text_or cand.endpoint_guid []))) [
        | inl t ↦
            let (a, b, c) = and_and _ _ _ t in
            subst IsListed (some_inj (rw t at h))
              (record { with_topic = a; with_type = b; with_guid = c })
        | inr f ↦ cc (rw f at h)
      ]

All-has_endpoint :
    (e : Endpoint) (eps : List Endpoint)
    → has_endpoint e eps ≡ false
    → All (λ ep. same_endpoint ep e ≡ false) eps
unfolding has_endpoint
All-has_endpoint e [] h = tt
All-has_endpoint e (ep ∷ eps) h = (ground arith, All-has_endpoint e eps (ground arith))

add_endpoint-AreListed :
    (e : Endpoint) (eps : List Endpoint)
    → IsListed e
    → AreListed eps
    → AreListed (add_endpoint e eps)
unfolding add_endpoint
add_endpoint-AreListed e eps h (d, a) = elim (Bool-cases (has_endpoint e eps)) [
  | inl t ↦ rw t (d, a)
  | inr f ↦ rw f (
    AreDistinct-snoc same_endpoint eps e d (All-has_endpoint e eps f),
    All-append IsListed eps (e ∷ []) a (h, tt),
  )
]

-- The list only grows at its end.
abbrev pub Grows : List Endpoint → List Endpoint → Type 0
Grows eps eps' = (more : List Endpoint) × (eps' ≡ eps ++ more)

add_endpoint-Grows : (e : Endpoint) (eps : List Endpoint) → Grows eps (add_endpoint e eps)
unfolding add_endpoint
add_endpoint-Grows e eps = elim (Bool-cases (has_endpoint e eps)) [
  | inl t ↦ rw t ([], sym (append-nil eps))
  | inr f ↦ rw f (e ∷ [], refl)
]

-- The lists that a search may make of one: well formed where it is, and grown out of it
abbrev pub Proceeds : List Endpoint → List Endpoint → Type 0
Proceeds eps eps' = Grows eps eps' × (AreListed eps → AreListed eps')

pub Proceeds-refl : (eps : List Endpoint) → Proceeds eps eps
Proceeds-refl eps = (([], sym (append-nil eps)), λ h. h)

pub Proceeds-trans : (a b c : List Endpoint) → Proceeds a b → Proceeds b c → Proceeds a c
Proceeds-trans a b c ((m, e), f) ((n, e'), g) =
    ((m ++ n, e' ∙ ap (λ l. l ++ n) e ∙ append_assoc a m n), λ h. g (f h))

enter_or-Proceeds :
    (o : Option Endpoint) (eps : List Endpoint) (deeper : Outcome (List Endpoint))
    → ((e : Endpoint) → o ≡ some e → IsListed e)
    → Ensures (Proceeds eps) deeper
    → Ensures (Proceeds eps) (enter_or o eps deeper)
enter_or-Proceeds none eps deeper l h = h
enter_or-Proceeds (some e) eps deeper l h =
    (add_endpoint-Grows e eps, λ a. add_endpoint-AreListed e eps (l e refl) a)

module _ (ip : Json) where
  enter_endpoint-Proceeds :
      (o : Outcome Candidate) (eps : List Endpoint) (deeper : Outcome (List Endpoint))
      → Ensures (Proceeds eps) deeper
      → Ensures (Proceeds eps) (enter_endpoint ip o eps deeper)
  enter_endpoint-Proceeds (raised x) eps deeper h = tt
  enter_endpoint-Proceeds (returned cand) eps deeper h =
      enter_or-Proceeds (endpoint_of ip cand) eps deeper
        (λ e hit. endpoint_of-IsListed ip cand e hit) h

  chain-Proceeds :
      (o : Outcome (List Endpoint)) (k : List Endpoint → Outcome (List Endpoint))
      (eps : List Endpoint)
      → Ensures (Proceeds eps) o
      → ((eps' : List Endpoint) → Ensures (Proceeds eps') (k eps'))
      → Ensures (Proceeds eps) (o >>= k)
  chain-Proceeds o k eps h g =
      Ensures->>= (Proceeds eps) (Proceeds eps) o k h
        (λ eps' f. weaken eps eps' (k eps') f (g eps'))
    where
      weaken :
          (a b : List Endpoint) (r : Outcome (List Endpoint))
          → Proceeds a b
          → Ensures (Proceeds b) r
          → Ensures (Proceeds a) r
      weaken a b (returned c) f h = Proceeds-trans a b c f h
      weaken a b (raised x) f h = tt

  mutual
    unfolding extract_sedp_endpoints

    pub extract_sedp_endpoints-Proceeds :
        (v : Json) (eps : List Endpoint) → Ensures (Proceeds eps) (extract_sedp_endpoints ip v eps)
    extract_sedp_endpoints-Proceeds (json_dict fs) eps =
        elim (Bool-cases (tells_endpoint (json_dict fs))) [
          | inl e ↦ rw e (
              enter_endpoint-Proceeds (inspect_cand (json_dict fs) no_candidate) eps
                (extract_fields ip fs eps) (extract_fields-Proceeds fs eps))
          | inr e ↦ rw e (extract_fields-Proceeds fs eps)
        ]
    extract_sedp_endpoints-Proceeds (json_list vs) eps = extract_items-Proceeds vs eps
    extract_sedp_endpoints-Proceeds json_null eps = Proceeds-refl eps
    extract_sedp_endpoints-Proceeds (json_int n) eps = Proceeds-refl eps
    extract_sedp_endpoints-Proceeds (json_text s) eps = Proceeds-refl eps

    extract_fields-Proceeds :
        (fs : Fields) (eps : List Endpoint) → Ensures (Proceeds eps) (extract_fields ip fs eps)
    extract_fields-Proceeds no_fields eps = Proceeds-refl eps
    extract_fields-Proceeds (add_field k v fs) eps =
        chain-Proceeds (extract_sedp_endpoints ip v eps) (λ eps'. extract_fields ip fs eps') eps
          (extract_sedp_endpoints-Proceeds v eps) (λ eps'. extract_fields-Proceeds fs eps')

    extract_items-Proceeds :
        (vs : Items) (eps : List Endpoint) → Ensures (Proceeds eps) (extract_items ip vs eps)
    extract_items-Proceeds no_items eps = Proceeds-refl eps
    extract_items-Proceeds (add_item v vs) eps =
        chain-Proceeds (extract_sedp_endpoints ip v eps) (λ eps'. extract_items ip vs eps') eps
          (extract_sedp_endpoints-Proceeds v eps) (λ eps'. extract_items-Proceeds vs eps')
