-- ===== src/Domain/Policy/Examples.antt =====
-- The policy's theorems at concrete verdicts. Confidences are whole percents.
use rfq_workflow_agent.Base.{ℕ, ltb, ◌≡◌, refl, true, false, none, some, [], ◌∷◌, arith, ◌||◌, ◌&&◌}
use rfq_workflow_agent.Base.Text.{txt}
use rfq_workflow_agent.Domain.Enums.{
  EmailCategory, Direction, DecisionPath, Priority, is_ignore, is_forward,
}
use rfq_workflow_agent.Domain.Models.{Signals, ClassificationResult}
use rfq_workflow_agent.Domain.Policy.{
  Float, IsOrdered, Thresholds, Draft, finalize, category_action, has_strong_rfq_signal,
  is_rfq_category, ignored_signal_hit,
}
use rfq_workflow_agent.Domain.Policy.Routing.{finalize-forward}
use rfq_workflow_agent.Domain.Policy.Guardrails.{finalize-needs_human_review}

instance abbrev pub percent : Float ℕ
percent = record { lt = ltb; nought = 0; one = 100 }

percent-IsOrdered : IsOrdered ℕ
percent-IsOrdered = ground arith

abbrev pub thresholds : Thresholds ℕ
thresholds = record { auto = 85; review = 60 }

abbrev pub due : Signals
due = record {
  vessel_name = none;
  imo = none;
  delivery_port = none;
  eta = none;
  rfq_reference = none;
  quotation_reference = none;
  ems_reference = none;
  quote_due_date = some (txt "12 Oct");
  department_or_category = none;
  urgency_markers = txt "URGENT" ∷ [];
}

abbrev spam : Draft ℕ
spam = record {
  category = EmailCategory.spam_marketing;
  direction = Direction.unknown;
  confidence = 90;
  decision_path = DecisionPath.llm;
  is_rfq = some true;
  priority = Priority.low;
  reasoning = [];
  evidence = [];
  rule_hits = [];
}

abbrev rfq : Draft ℕ
rfq = record spam { category = EmailCategory.new_rfq; confidence = 120 }

spam_result : ClassificationResult ℕ
unfolding finalize category_action is_rfq_category has_strong_rfq_signal
spam_result = finalize spam due [] thresholds []

spam_hits : spam_result.rule_hits ≡ txt "guardrail:is_rfq_mismatch" ∷ ignored_signal_hit ∷ []
unfolding spam_result
spam_hits = refl

finalize-forward_example :
    (is_forward (finalize rfq due [] thresholds []).recommended_action ≡ true)
    × ((finalize rfq due [] thresholds []).is_rfq ≡ true)
    × ((finalize rfq due [] thresholds []).requires_action ≡ true)
unfolding finalize category_action is_rfq_category
finalize-forward_example = finalize-forward rfq due [] thresholds []

finalize-needs_human_review_example : (finalize spam due [] thresholds []).needs_human_review ≡ (
    false
    || false
    || (is_ignore (category_action EmailCategory.spam_marketing) && has_strong_rfq_signal due []))
finalize-needs_human_review_example = finalize-needs_human_review spam due [] thresholds []
