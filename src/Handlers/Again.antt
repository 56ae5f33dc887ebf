-- ===== src/Handlers/Again.antt =====
-- What stops an email from being handled twice, and what happens to one that fails
-- (src/services/handlers.py).
use rfq_workflow_agent.Base.{
  ◌≡◌, ◌≢◌, refl, Bool, true, false, List, [], ◌∷◌, ◌++◌, arith, if◌then◌else◌, any,
}
use rfq_workflow_agent.Base.Text.{Text, member}
use rfq_workflow_agent.Domain.Models.{ClassificationResult}
use rfq_workflow_agent.Domain.Registries.{all_names, for_result, plus_not_sent}
use rfq_workflow_agent.Domain.Registries.Labels.{
  Owned, for_result-Owned, plus_not_sent-Owned, plus_not_sent-ne_nil,
}
use rfq_workflow_agent.Handlers.Effects.{EmailMessage, Trace, World, ok, pure}
use rfq_workflow_agent.Handlers.Steps.{Handler, already_handled}
use rfq_workflow_agent.Handlers.Run.{handle}

module _ {F : Type 0} (w : World F) (h : Handler) where
  Owned-is_handled :
      (labels others : List Text)
      → labels ≢ []
      → Owned h.categories labels
      → any (λ c. member c (all_names h.categories)) (labels ++ others) ≡ true
  Owned-is_handled [] others some' own = absurd (some' refl)
  Owned-is_handled (l ∷ labels) others some' own = ground arith

  -- A message that carries the label of its verdict, or that label with the mark of an RFQ that was
  -- not sent, is skipped when it is notified again: no call of any kind is made.
  pub handle-again :
      (message : EmailMessage) (r : ClassificationResult F) (others : List Text) (not_sent : Bool)
      (s : Trace)
      → for_result h.categories r ≢ []
      → let labels =
          if not_sent
          then plus_not_sent h.categories (for_result h.categories r)
          else for_result h.categories r in
        handle w h (record message { categories = labels ++ others }) s ≡ (ok tt, s)
  unfolding handle already_handled pure
  handle-again message r others true s labelled = rw (
      Owned-is_handled _ others (plus_not_sent-ne_nil h.categories _ labelled)
        (plus_not_sent-Owned h.categories _ (for_result-Owned h.categories r)))
  handle-again message r others false s labelled =
      rw (Owned-is_handled _ others labelled (for_result-Owned h.categories r))
