-- ===== src/Domain/FastPath/Rules.antt =====
-- When the hard rules decide (src/domain/rules/fast_path.py).
use rfq_workflow_agent.Base.{
  ◌≡◌, refl, ◌⊎◌, ◌↔◌, ◌≢◌, Bool, true, none, List, [], ◌∷◌, arith, ◌<◌, length, all, All,
}
use rfq_workflow_agent.Base.Text.{strip}
use rfq_workflow_agent.Domain.Models.{NormalizedEmail, SplitThread, EmailAddress, domain}
use rfq_workflow_agent.Domain.Registries.{Registries, is_internal_domain}
use rfq_workflow_agent.Domain.FastPath.{
  match_fast_path, internal_only, empty_body, recipients, recipients_are_internal_only,
  all_internal, sender_domain,
}

all→All : {A : Type 0} (p : A → Bool) (xs : List A) → all p xs ≡ true → All (λ x. p x ≡ true) xs
all→All p [] h = tt
all→All p (x ∷ xs) h = (ground arith, all→All p xs (ground arith))

All→all : {A : Type 0} (p : A → Bool) (xs : List A) → All (λ x. p x ≡ true) xs → all p xs ≡ true
All→all p [] h = refl
All→all p (x ∷ xs) h = ground (arith, All→all p xs h.1)

module _ {F : Type 0} (r : Registries F) (email : NormalizedEmail) where
  -- Our own sender, at least one recipient, and nobody external among them.
  abbrev pub IsInternal : Type 0
  IsInternal =
      (is_internal_domain r (sender_domain email) ≡ true)
      × (recipients email ≢ [])
      × All (λ person. is_internal_domain r (domain person) ≡ true) (recipients email)

  -- Nothing attached, and too little to read.
  abbrev pub IsEmpty : SplitThread → Type 0
  IsEmpty thread =
      (email.attachments ≡ []) × (length (strip thread.latest_message) < r.fast_path.min_body_chars)

  all_internal_iff :
      (rs : List EmailAddress)
      → (all_internal r rs ≡ true)
        ↔ ((rs ≢ []) × All (λ person. is_internal_domain r (domain person) ≡ true) rs)
  unfolding all_internal
  all_internal_iff [] = (λ h. cc, λ h. absurd (h.0 refl))
  all_internal_iff (a ∷ rs) = (
    λ h. (λ e. cc, all→All _ (a ∷ rs) h),
    λ h. All→all (λ person. is_internal_domain r (domain person)) (a ∷ rs) h.1,
  )

  internal_only_iff : (internal_only r email ≢ none) ↔ IsInternal
  unfolding internal_only recipients_are_internal_only
  internal_only_iff = ground (arith, all_internal_iff (recipients email))

  empty_body_iff : (thread : SplitThread) → (empty_body r email thread ≢ none) ↔ IsEmpty thread
  unfolding empty_body
  empty_body_iff thread = ground arith

  -- The hard rules decide an email exactly when its sender and all its recipients, at least one, are
  -- internal, or when nothing is attached and its text is too short, whoever sent it.
  pub match_fast_path_iff :
      (thread : SplitThread)
      → (match_fast_path r email thread ≢ none) ↔ (IsInternal ⊎ IsEmpty thread)
  unfolding match_fast_path
  match_fast_path_iff thread = ground (arith, internal_only_iff, empty_body_iff thread)
