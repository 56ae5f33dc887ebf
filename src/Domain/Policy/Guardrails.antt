-- ===== src/Domain/Policy/Guardrails.antt =====
-- What the guardrails catch (src/domain/policy.py).
use rfq_workflow_agent.Base.{◌≡◌, ◌&&◌, ◌||◌, List, arith, if◌then◌else◌}
use rfq_workflow_agent.Base.Text.{Text}
use rfq_workflow_agent.Domain.Enums.{DecisionPath, AttachmentKind, is_ignore, is_llm}
use rfq_workflow_agent.Domain.Models.{Signals}
use rfq_workflow_agent.Domain.Policy.{
  Float, Thresholds, Draft, finalize, bands, category_action, has_strong_rfq_signal,
}

module _ {F : Type 0} ⦃f : Float F⦄ where
  -- A person reviews an email exactly when the confidence is below one of the two thresholds, or
  -- when it would be ignored although it carries a strong RFQ signal.
  pub finalize-needs_human_review :
      (d : Draft F) (s : Signals) (kinds : List AttachmentKind) (t : Thresholds F)
      (warnings : List Text)
      → (finalize d s kinds t warnings).needs_human_review ≡ (
          f.lt d.confidence t.review
          || f.lt d.confidence t.auto
          || (is_ignore (category_action d.category) && has_strong_rfq_signal s kinds))
  unfolding finalize bands
  finalize-needs_human_review d s kinds t warnings = ground arith

  -- The path is relabelled exactly when the model was asked, the email is ignored and a strong
  -- signal contradicts that; a verdict of the rules keeps its path.
  pub finalize-decision_path :
      (d : Draft F) (s : Signals) (kinds : List AttachmentKind) (t : Thresholds F)
      (warnings : List Text)
      → (finalize d s kinds t warnings).decision_path ≡ (
          if is_llm d.decision_path
            && (is_ignore (finalize d s kinds t warnings).recommended_action
                && has_strong_rfq_signal s kinds)
          then DecisionPath.llm_with_guardrail_override
          else d.decision_path)
  unfolding finalize
  finalize-decision_path d s kinds t warnings = ground arith
