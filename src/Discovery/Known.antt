-- ===== src/Discovery/Known.antt =====
-- What stays true of the participants while packets come in.
use dds_rtps.Prelude.{
  All, Bool, Bool-cases, List, Text, [], append-nil, append_assoc, arith, false, if◌then◌else◌, inl,
  inr, length, sym, text_eq, true, ◌++◌, ◌∙◌, ◌∷◌, ◌≡◌, ◌≤◌,
}
use dds_rtps.Discovery.Participants.{
  Participant, Participants, add_locators, has_locator, same_locator, update_participant,
}
use dds_rtps.Discovery.Spdp.{Locator}
use dds_rtps.Prelude.Distinct.{AreDistinct, AreDistinct-snoc}
use dds_rtps.Texts.Edit.{is_filled}

All-has_locator :
    (l : Locator) (ms : List Locator)
    → has_locator l ms ≡ false
    → All (λ m. same_locator m l ≡ false) ms
unfolding has_locator
All-has_locator l [] e = tt
All-has_locator l (m ∷ ms) e = (ground arith, All-has_locator l ms (ground arith))

abbrev pub AreLocators : List Locator → Type 0
AreLocators ls = AreDistinct same_locator ls

pub add_locators-AreLocators :
    (known ls : List Locator) → AreLocators known → AreLocators (add_locators known ls)
unfolding add_locators
add_locators-AreLocators known [] d = d
add_locators-AreLocators known (l ∷ ls) d =
    add_locators-AreLocators (if has_locator l known then known else known ++ (l ∷ [])) ls
      (elim (Bool-cases (has_locator l known)) [
        | inl e ↦ rw e d
        | inr e ↦ rw e (AreDistinct-snoc same_locator known l d (All-has_locator l known e))
      ])

-- Locators are only appended.
pub add_locators-grows :
    (known ls : List Locator) → (more : List Locator) × (add_locators known ls ≡ known ++ more)
unfolding add_locators
add_locators-grows known [] = ([], sym (append-nil known))
add_locators-grows known (l ∷ ls) = elim (Bool-cases (has_locator l known)) [
  | inl e ↦ rw e (add_locators-grows known ls)
  | inr e ↦
      let (more, grown) = add_locators-grows (known ++ (l ∷ [])) ls in
      rw e (l ∷ more, grown ∙ append_assoc known (l ∷ []) more)
]

-- A participant stands under its own guid prefix, and each of its locators is there once.
pub record IsKnown (entry_of : Text × Participant) : Type 0 where
  pub own : entry_of.1.guid_prefix ≡ entry_of.0
  pub named : is_filled entry_of.0 ≡ true
  pub short : length entry_of.0 ≤ 24
  pub once : AreLocators entry_of.1.locators

abbrev pub same_guid : Text × Participant → Text × Participant → Bool
same_guid a b = text_eq a.0 b.0

-- Each guid prefix has one participant, which is well formed.
abbrev pub AreKnown : Participants → Type 0
AreKnown ps = AreDistinct same_guid ps × All IsKnown ps

module _ (guid : Text) (f : Participant → Participant) (p : Participant) where
  others_of :
      (g : Text) (q : Participant) (ps : Participants)
      → text_eq g guid ≡ false
      → All (λ e. same_guid (g, q) e ≡ false) ps
      → All (λ e. same_guid (g, q) e ≡ false) (update_participant guid f p ps)
  unfolding update_participant
  others_of g q [] e h = (e, tt)
  others_of g q ((g', q') ∷ ps) e (h, t) = elim (Bool-cases (text_eq g' guid)) [
    | inl e' ↦ rw e' (h, t)
    | inr e' ↦ rw e' (h, others_of g q ps e t)
  ]

  pub update_participant-AreDistinct :
      (ps : Participants)
      → AreDistinct same_guid ps
      → AreDistinct same_guid (update_participant guid f p ps)
  unfolding update_participant
  update_participant-AreDistinct [] d = (tt, tt)
  update_participant-AreDistinct ((g, q) ∷ ps) (a, d) = elim (Bool-cases (text_eq g guid)) [
    | inl e ↦ rw e (a, d)
    | inr e ↦ rw e (others_of g q ps e a, update_participant-AreDistinct ps d)
  ]

  pub update_participant-IsKnown :
      (ps : Participants)
      → IsKnown (guid, p)
      → ((g : Text) (q : Participant) → IsKnown (g, q) → IsKnown (g, f q))
      → All IsKnown ps
      → All IsKnown (update_participant guid f p ps)
  unfolding update_participant
  update_participant-IsKnown [] k keeps h = (k, tt)
  update_participant-IsKnown ((g, q) ∷ ps) k keeps (h, t) = elim (Bool-cases (text_eq g guid)) [
    | inl e ↦ rw e (keeps g q h, t)
    | inr e ↦ rw e (h, update_participant-IsKnown ps k keeps t)
  ]
