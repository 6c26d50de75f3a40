-- ===== src/Discovery/Identity.antt =====
-- What later packets change of a participant.
use dds_rtps.Prelude.{
  List, Text, [], ap, append-nil, append_assoc, inl, inr, refl, subst, sym, ◌++◌, ◌∙◌, ◌∷◌, ◌≡◌,
  ◌⊎◌,
}
use dds_rtps.Discovery.Json.{Json}
use dds_rtps.Discovery.Known.{AreLocators, IsKnown, add_locators-AreLocators, add_locators-grows}
use dds_rtps.Discovery.Participants.{
  Participant, add_flags, add_lease, augment, mask_and_flags, with_flags,
}
use dds_rtps.Discovery.Spdp.{FoundSpdp, Locator}

-- What the first packet of a participant tells of it
abbrev pub identity : Participant → Text × (Json × (Text × (Text × Text)))
identity p = (p.guid_prefix, (p.src_ip, (p.vendor_id, (p.vendor_name, p.protocol_version))))

-- The identity stays, locators are appended, and flags that are there stay with their mask.
pub record Extends (p q : Participant) : Type 0 where
  pub identified : identity q ≡ identity p
  pub located : (more : List Locator) × (q.locators ≡ p.locators ++ more)
  pub flagged :
      (p.builtin_endpoints_flags ≡ [])
      ⊎ ((q.builtin_endpoints_flags ≡ p.builtin_endpoints_flags)
          × (q.builtin_endpoints_mask ≡ p.builtin_endpoints_mask))

pub Extends-refl : (p : Participant) → Extends p p
Extends-refl p = record {
  identified = refl;
  located = ([], sym (append-nil p.locators));
  flagged = inr (refl, refl);
}

pub Extends-trans : (p q r : Participant) → Extends p q → Extends q r → Extends p r
Extends-trans p q r h k =
    let (a, ea) = h.located in
    let (b, eb) = k.located in
    record {
      identified = k.identified ∙ h.identified;
      located = (a ++ b, eb ∙ ap (λ l. l ++ b) ea ∙ append_assoc p.locators a b);
      flagged = flags h.flagged k.flagged;
    }
  where
    flags :
        (p.builtin_endpoints_flags ≡ [])
          ⊎ ((q.builtin_endpoints_flags ≡ p.builtin_endpoints_flags)
              × (q.builtin_endpoints_mask ≡ p.builtin_endpoints_mask))
        → (q.builtin_endpoints_flags ≡ [])
          ⊎ ((r.builtin_endpoints_flags ≡ q.builtin_endpoints_flags)
              × (r.builtin_endpoints_mask ≡ q.builtin_endpoints_mask))
        → (p.builtin_endpoints_flags ≡ [])
          ⊎ ((r.builtin_endpoints_flags ≡ p.builtin_endpoints_flags)
              × (r.builtin_endpoints_mask ≡ p.builtin_endpoints_mask))
    flags (inl e) _ = inl e
    flags (inr (e, m)) (inl e') = inl (sym e ∙ e')
    flags (inr (e, m)) (inr (e', m')) = inr (e' ∙ e, m' ∙ m)

with_flags-Extends :
    (fs : List Text) (g : Text × List Text) (p : Participant)
    → p.builtin_endpoints_flags ≡ fs
    → Extends p (with_flags fs g p)
with_flags-Extends [] (mask, f ∷ fs) p e = record {
  identified = refl;
  located = ([], sym (append-nil p.locators));
  flagged = inl e;
}
with_flags-Extends [] (mask, []) p e = Extends-refl p
with_flags-Extends (f ∷ fs) g p e = Extends-refl p

pub augment-Extends : (found_spdp : FoundSpdp) (p : Participant) → Extends p (augment found_spdp p)
unfolding augment add_flags add_lease
augment-Extends found_spdp p =
    let q = add_flags found_spdp p in
    let h = with_flags-Extends p.builtin_endpoints_flags (mask_and_flags found_spdp) p refl in
    Extends-trans p q (augment found_spdp p) h (record {
      identified = refl;
      located = add_locators-grows q.locators found_spdp.locators_found;
      flagged = inr (refl, refl);
    })

with_flags-locators :
    (fs : List Text) (g : Text × List Text) (p : Participant)
    → (with_flags fs g p).locators ≡ p.locators
with_flags-locators [] (mask, f ∷ fs) p = refl
with_flags-locators [] (mask, []) p = refl
with_flags-locators (f ∷ fs) g p = refl

add_flags-locators :
    (found_spdp : FoundSpdp) (p : Participant) → (add_flags found_spdp p).locators ≡ p.locators
unfolding add_flags
add_flags-locators found_spdp p =
    with_flags-locators p.builtin_endpoints_flags (mask_and_flags found_spdp) p

pub augment-IsKnown :
    (found_spdp : FoundSpdp) (g : Text) (q : Participant)
    → IsKnown (g, q)
    → IsKnown (g, augment found_spdp q)
unfolding augment add_lease
augment-IsKnown found_spdp g q k = record {
  own = ap (λ t. t.0) (augment-Extends found_spdp q).identified ∙ k.own;
  named = k.named;
  short = k.short;
  once =
      add_locators-AreLocators (add_flags found_spdp q).locators found_spdp.locators_found
        (subst AreLocators (sym (add_flags-locators found_spdp q)) k.once);
}
