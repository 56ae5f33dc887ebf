-- ===== src/Domain/Registries/Senders.antt =====
-- How a sender is placed (src/domain/rules/registries.py).
use rfq_workflow_agent.Base.{
  ◌≡◌, refl, ◌⊎◌, inl, inr, ◌↔◌, true, false, Option, none, some, List, [], ◌∷◌, ◌++◌, arith,
  Bool-cases, ap, ◌≢◌,
}
use rfq_workflow_agent.Base.Text.{Text, member}
use rfq_workflow_agent.Domain.Enums.{SenderClass}
use rfq_workflow_agent.Domain.Registries.{
  Portal, Registries, classify_sender, is_system_sender, is_internal_domain, find_portal_by_domain,
  portal_of, given, listed,
}

-- The portal that is found stands in the table with the domain, and no earlier one lists it.
pub portal_of_sound :
    (d : Text) (portals : List (Text × Portal)) (name : Text)
    → portal_of d portals ≡ some name
    → (before : List (Text × Portal)) × (p : Portal) × (after : List (Text × Portal)) × (portals
        ≡ before ++ ((name, p) ∷ after))
      × (member d p.domains ≡ true)
      × (portal_of d before ≡ none)
unfolding portal_of
portal_of_sound d [] name h = cc
portal_of_sound d ((n, p) ∷ rest) name h = elim (Bool-cases (member d p.domains)) [
  | inl lists ↦ ([], p, rest, ground arith, lists, refl)
  | inr other ↦
      let (before, q, after, e, m, z) = portal_of_sound d rest name (rw other at h) in
      ((n, p) ∷ before, q, after, ap (λ l. (n, p) ∷ l) e, m, ground arith)
]

given-none : given none ≡ none
unfolding given
given-none = refl

module _ {F : Type 0} (r : Registries F) (address : Option Text) where
  unknown_iff :
      (d : Option Text)
      → (classify_sender r address d ≡ SenderClass.unknown) ↔ ((d ≡ none) ⊎ (d ≡ some []))
  unfolding classify_sender
  unknown_iff none = (λ _. inl refl, λ _. refl)
  unknown_iff (some []) = (λ _. inr refl, λ _. refl)
  unknown_iff (some (c ∷ s)) = (λ h. ground arith, λ h. ground arith)

  own_iff :
      (d : Option Text)
      → (classify_sender r address d ≡ SenderClass.internal_own)
        ↔ ((is_internal_domain r d ≡ true) × (is_system_sender r address ≡ false))
  unfolding classify_sender
  own_iff none = (λ h. cc, λ h. unfold is_internal_domain listed in ground arith)
  own_iff (some []) = (λ h. cc, λ h. unfold is_internal_domain listed in ground arith)
  own_iff (some (c ∷ s)) = (λ h. ground arith, λ h. ground arith)

  portal_only :
      (d : Option Text)
      → classify_sender r address d ≡ SenderClass.portal
      → (is_internal_domain r d ≡ false)
        × (is_system_sender r address ≡ false)
        × (find_portal_by_domain r d ≢ none)
  unfolding classify_sender
  portal_only none h = cc
  portal_only (some []) h = cc
  portal_only (some (c ∷ s)) h =
      ground (arith, given-none, ap given {x = find_portal_by_domain r (some (c ∷ s))} {y = none})

  -- A sender is unknown exactly when the email names no domain, is our own exactly when the domain
  -- is internal and the address is no system's, and is a portal only if neither holds and a portal
  -- lists the domain.
  pub classify_sender-order :
      (d : Option Text)
      → ((classify_sender r address d ≡ SenderClass.unknown) ↔ ((d ≡ none) ⊎ (d ≡ some [])))
        × ((classify_sender r address d ≡ SenderClass.internal_own)
            ↔ ((is_internal_domain r d ≡ true) × (is_system_sender r address ≡ false)))
        × (classify_sender r address d ≡ SenderClass.portal
            → (is_internal_domain r d ≡ false)
              × (is_system_sender r address ≡ false)
              × (find_portal_by_domain r d ≢ none))
  classify_sender-order d = (unknown_iff d, own_iff d, portal_only d)
