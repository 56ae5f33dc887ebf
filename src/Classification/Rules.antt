-- ===== src/Classification/Rules.antt =====
-- When the model is asked, and what the hard rules answer without it.
use rfq_workflow_agent.Base.{
  Bool, true, false, not, ◌&&◌, ◌≡◌, ◌⊎◌, length, ltb, refl, Option, none, some, List, [], ◌∷◌,
  if◌then◌else◌, if_cases, is_some, or_else, arith, Bool-cases, inl, inr,
}
use rfq_workflow_agent.Base.Text.{strip}
use rfq_workflow_agent.Domain.Enums.{DecisionPath, is_ignore}
use rfq_workflow_agent.Domain.Models.{NormalizedEmail, SplitThread, Hints, ClassificationOutcome}
use rfq_workflow_agent.Domain.Registries.{Registries, is_internal_domain}
use rfq_workflow_agent.Domain.FastPath.{
  FastPathDecision, match_fast_path, sender_domain, recipients_are_internal_only, internal_only,
  empty_body,
}
use rfq_workflow_agent.Domain.Policy.{
  Float, finalize, is_rfq_category, bands, category_action, has_strong_rfq_signal,
}
use rfq_workflow_agent.Domain.Hints.{build_hints}
use rfq_workflow_agent.Classification.{
  Completion, ClassificationPipeline, from_rule, read_thread, decided, needs_the_model,
  finalize_draft, by_rule, classified, classify,
}

abbrev IsNoRfq : {F : Type 0} → Option (FastPathDecision F) → Type 0
IsNoRfq none = Unit
IsNoRfq (some d) = is_rfq_category d.category ≡ false

List-cases {ℓ} : {A : Type ℓ} (xs : List A) → (xs ≡ []) ⊎ ((y : A) × (ys : List A) × (xs ≡ y ∷ ys))
List-cases [] = inl refl
List-cases (y ∷ ys) = inr (y, ys, refl)

module _ {F : Type 0} (r : Registries F) where
  internal_only-IsNoRfq : (email : NormalizedEmail) → IsNoRfq (internal_only r email)
  unfolding internal_only is_rfq_category
  internal_only-IsNoRfq email =
      if_cases IsNoRfq (not (is_internal_domain r (sender_domain email))) (λ _. tt)
        (λ _. if_cases IsNoRfq (not (recipients_are_internal_only r email)) (λ _. tt) (λ _. refl))

  empty_body-IsNoRfq :
      (email : NormalizedEmail) (thread : SplitThread) → IsNoRfq (empty_body r email thread)
  unfolding empty_body is_rfq_category
  empty_body-IsNoRfq email thread = elim (List-cases email.attachments) [
    | inr (a, rest, e) ↦ rw (empty_body, e) tt
    | inl e ↦
        rw (empty_body, e)
          (if_cases IsNoRfq (ltb (length (strip thread.latest_message)) r.fast_path.min_body_chars)
            (λ _. refl) (λ _. tt))
  ]

  or_else-IsNoRfq :
      (a b : Option (FastPathDecision F)) → IsNoRfq a → IsNoRfq b → IsNoRfq (or_else a b)
  or_else-IsNoRfq none b h k = k
  or_else-IsNoRfq (some d) b h k = h

  match_fast_path-IsNoRfq :
      (email : NormalizedEmail) (thread : SplitThread) → IsNoRfq (match_fast_path r email thread)
  unfolding match_fast_path
  match_fast_path-IsNoRfq email thread =
      or_else-IsNoRfq (internal_only r email) (empty_body r email thread)
        (internal_only-IsNoRfq email) (empty_body-IsNoRfq email thread)

not_overruled : (a b : Bool) (x y : DecisionPath) → (if (a && b) && false then x else y) ≡ y
not_overruled true true x y = refl
not_overruled true false x y = refl
not_overruled false b x y = refl

module _ {F : Type 0} ⦃f : Float F⦄ (p : ClassificationPipeline F) where
  by_rule-result :
      (email : NormalizedEmail) (d : FastPathDecision F)
      → IsNoRfq (some d)
      → ((by_rule p email d).result.decision_path ≡ DecisionPath.rules_fast_path)
        × ((by_rule p email d).result.is_rfq ≡ false)
  unfolding by_rule finalize_draft finalize from_rule
  by_rule-result email d h = (
    not_overruled (is_ignore (bands p.thresholds d.confidence (category_action d.category)).0)
        (has_strong_rfq_signal
          (build_hints p.registries p.readers email (read_thread p email)).signals
          (build_hints p.registries p.readers email (read_thread p email)).attachment_kinds)
        DecisionPath.llm_with_guardrail_override DecisionPath.rules_fast_path,
    h,
  )

  classified-rule :
      (email : NormalizedEmail) (o : Option (FastPathDecision F))
      → is_some o ≡ true
      → IsNoRfq o
      → (out : ClassificationOutcome F) × ((invoke : SplitThread → Hints → Option (Completion F))
          → classified p invoke email o ≡ some out)
        × (out.model ≡ none)
        × (out.result.decision_path ≡ DecisionPath.rules_fast_path)
        × (out.result.is_rfq ≡ false)
  unfolding classified by_rule
  classified-rule email none h n = cc
  classified-rule email (some d) h n =
      let (path, no_rfq) = by_rule-result email d n in
      (by_rule p email d, (λ invoke. refl), refl, path, no_rfq)

  decided-IsNoRfq : (email : NormalizedEmail) → IsNoRfq (decided p email)
  unfolding decided
  decided-IsNoRfq email =
      if_cases IsNoRfq p.fast_path_enabled
        (λ _. match_fast_path-IsNoRfq p.registries email (read_thread p email)) (λ _. tt)

  decided-needs :
      (email : NormalizedEmail) → needs_the_model p email ≡ not (is_some (decided p email))
  unfolding needs_the_model decided
  decided-needs email = elim (Bool-cases p.fast_path_enabled) [
    | inl on ↦ rw (needs_the_model, decided, on) refl
    | inr off ↦ rw (needs_the_model, decided, off) refl
  ]

  -- Where `needs_the_model` says no, `classify` answers, and answers the same whatever a model would say:
  -- the rules decided, and the email is no RFQ.
  pub classify-without_model :
      (email : NormalizedEmail)
      → needs_the_model p email ≡ false
      → (out : ClassificationOutcome F) × ((invoke : SplitThread → Hints → Option (Completion F))
          → classify p invoke email ≡ some out)
        × (out.model ≡ none)
        × (out.result.decision_path ≡ DecisionPath.rules_fast_path)
        × (out.result.is_rfq ≡ false)
  unfolding classify
  classify-without_model email h =
      let e = decided-needs email in
      let found : is_some (decided p email) ≡ true = ground (arith, h, e) in
      classified-rule email (decided p email) found (decided-IsNoRfq email)
