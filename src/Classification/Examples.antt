-- ===== src/Classification/Examples.antt =====
-- An internal memo, which no model is asked about.
use rfq_workflow_agent.Base.{ℕ, ◌≡◌, refl, true, false, Option, none, some}
use rfq_workflow_agent.Base.Text.{lower}
use rfq_workflow_agent.Domain.Enums.{DecisionPath, AttachmentKind}
use rfq_workflow_agent.Domain.Models.{
  SplitThread, Hints, ClassificationOutcome, domain, after_last_at,
}
use rfq_workflow_agent.Domain.Registries.{is_internal_domain}
use rfq_workflow_agent.Domain.FastPath.{
  match_fast_path, internal_only, sender_domain, recipients_are_internal_only, all_internal,
}
use rfq_workflow_agent.Domain.Examples.{registries, memo}
use rfq_workflow_agent.Domain.Policy.Examples.{percent, thresholds, due}
use rfq_workflow_agent.Classification.{
  Completion, ClassificationPipeline, needs_the_model, classify,
}
use rfq_workflow_agent.Classification.Rules.{classify-without_model}

abbrev pipeline : ClassificationPipeline ℕ
pipeline = record {
  registries = registries;
  thresholds = thresholds;
  fast_path_enabled = true;
  min_latest_chars = 15;
  readers = record {
    classify_attachment = λ name size. AttachmentKind.other;
    extract_signals = λ text. due;
  };
}

classify-without_model_example :
    (out : ClassificationOutcome ℕ) × ((invoke : SplitThread → Hints → Option (Completion ℕ))
      → classify pipeline invoke memo ≡ some out)
    × (out.model ≡ none)
    × (out.result.decision_path ≡ DecisionPath.rules_fast_path)
    × (out.result.is_rfq ≡ false)
unfolding needs_the_model match_fast_path internal_only sender_domain recipients_are_internal_only
    all_internal is_internal_domain domain after_last_at lower
classify-without_model_example = classify-without_model pipeline memo refl
