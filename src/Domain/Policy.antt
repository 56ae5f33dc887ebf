-- ===== src/Domain/Policy.antt =====
-- src/domain/policy.py: what is done with a verdict. `F` is Python's `float`, of which the code uses
-- `<`, `0.0` and `1.0` only.
pub mod Routing
pub mod Guardrails
pub mod Examples
use rfq_workflow_agent.Base.{
  ◌≡◌, Bool, true, false, not, ◌&&◌, ◌||◌, Option, none, some, List, [], ◌∷◌, ◌++◌, any,
  if◌then◌else◌,
}
use rfq_workflow_agent.Base.Text.{Text, txt, non_empty}
use rfq_workflow_agent.Domain.Enums.{
  EmailCategory, Direction, RecommendedAction, DecisionPath, Priority, AttachmentKind, is_ignore,
  is_rfq_form, is_llm,
}
use rfq_workflow_agent.Domain.Models.{Signals, ClassificationResult}

-- The operations on `float`.
pub record Float (F : Type 0) : Type 0 where
  pub lt : F → F → Bool
  pub nought : F
  pub one : F

-- What IEEE comparison guarantees, NaN included: every comparison with it is false.
pub record IsOrdered (F : Type 0) ⦃f : Float F⦄ : Type 0 where
  pub lt_irrefl : (x : F) → f.lt x x ≡ false
  pub lt_asymm : (x y : F) → f.lt x y ≡ true → f.lt y x ≡ false
  pub nought_lt_one : f.lt f.nought f.one ≡ true

-- `CATEGORY_ACTION`
unfoldable pub category_action : EmailCategory → RecommendedAction
category_action EmailCategory.new_rfq = RecommendedAction.forward_to_dst
category_action EmailCategory.updated_rfq = RecommendedAction.forward_to_dst
category_action EmailCategory.portal_rfq_notification = RecommendedAction.forward_to_dst
category_action EmailCategory.customer_order_po = RecommendedAction.route_to_order_team
category_action EmailCategory.customer_clarification = RecommendedAction.route_to_cs
category_action EmailCategory.supplier_correspondence = RecommendedAction.route_to_sourcing
category_action EmailCategory.quote_status_notification = RecommendedAction.route_to_cs
category_action EmailCategory.internal = RecommendedAction.ignore
category_action EmailCategory.outbound_own = RecommendedAction.ignore
category_action EmailCategory.spam_marketing = RecommendedAction.ignore
category_action EmailCategory.auto_reply_system = RecommendedAction.ignore
category_action EmailCategory.other_non_actionable = RecommendedAction.ignore
category_action EmailCategory.uncertain = RecommendedAction.human_review

-- `category in RFQ_CATEGORIES`
unfoldable pub is_rfq_category : EmailCategory → Bool
is_rfq_category EmailCategory.new_rfq = true
is_rfq_category EmailCategory.updated_rfq = true
is_rfq_category EmailCategory.portal_rfq_notification = true
is_rfq_category _ = false

pub record Thresholds (F : Type 0) : Type 0 where
  pub auto : F
  pub review : F

pub record Draft (F : Type 0) : Type 0 where
  pub category : EmailCategory
  pub direction : Direction
  pub confidence : F
  pub decision_path : DecisionPath
  pub is_rfq : Option Bool
  pub priority : Priority
  pub reasoning : Text
  pub evidence : List Text
  pub rule_hits : List Text

-- `bool(value)` of an optional text.
abbrev truthy : Option Text → Bool
truthy none = false
truthy (some t) = non_empty t

-- `_has_strong_rfq_signal`
unfoldable pub has_strong_rfq_signal : Signals → List AttachmentKind → Bool
has_strong_rfq_signal s kinds =
    any is_rfq_form kinds || truthy s.quote_due_date || truthy s.rfq_reference

-- `_priority`
unfoldable pub priority : Priority → Signals → Priority
priority hinted s = elim (s.urgency_markers) [ [] ↦ hinted | _ ∷ _ ↦ Priority.urgent ]

-- `draft.is_rfq is not None and draft.is_rfq != is_rfq`
unfoldable pub is_mismatch : Option Bool → Bool → Bool
is_mismatch none b = false
is_mismatch (some true) b = not b
is_mismatch (some false) b = b

abbrev pub mismatch_hit : Text
mismatch_hit = txt "guardrail:is_rfq_mismatch"

abbrev pub low_confidence_hit : Text
low_confidence_hit = txt "guardrail:low_confidence"

abbrev pub below_auto_hit : Text
below_auto_hit = txt "guardrail:confidence_below_auto"

abbrev pub ignored_signal_hit : Text
ignored_signal_hit = txt "guardrail:rfq_signal_in_ignored_email"

module _ {F : Type 0} ⦃f : Float F⦄ where
  -- `_clamp`: Python's `max(c, 0.0)` keeps `c` unless `0.0` is greater, `min` likewise.
  unfoldable pub clamp : F → F
  clamp c = let m : F = if f.lt c f.nought then f.nought else c in if f.lt f.one m then f.one else m

  -- The confidence bands of `finalize`: the action, the review flag and the guardrail that fired.
  pub bands : Thresholds F → F → RecommendedAction → RecommendedAction × Bool × List Text
  bands t c action =
      if f.lt c t.review
      then (RecommendedAction.human_review, true, low_confidence_hit ∷ [])
      else if f.lt c t.auto
      then (action, true, below_auto_hit ∷ [])
      else (action, false, [])

  unfoldable pub finalize :
      Draft F → Signals → List AttachmentKind → Thresholds F → List Text → ClassificationResult F
  unfolding bands is_mismatch has_strong_rfq_signal priority
  finalize draft signals kinds thresholds parse_warnings =
      let rfq = is_rfq_category draft.category in
      let mismatch : List Text = if is_mismatch draft.is_rfq rfq then mismatch_hit ∷ [] else [] in
      let (action, review, band) =
        bands thresholds draft.confidence (category_action draft.category) in
      let caught = is_ignore action && has_strong_rfq_signal signals kinds in
      record {
        category = draft.category;
        direction = draft.direction;
        requires_action = not (is_ignore action);
        is_rfq = rfq;
        recommended_action = action;
        confidence = clamp draft.confidence;
        needs_human_review = review || caught;
        priority = priority draft.priority signals;
        decision_path =
            if caught && is_llm draft.decision_path
            then DecisionPath.llm_with_guardrail_override
            else draft.decision_path;
        reasoning = draft.reasoning;
        evidence = draft.evidence;
        extracted = signals;
        rule_hits =
            draft.rule_hits
            ++ (mismatch ++ (band ++ (if caught then ignored_signal_hit ∷ [] else [])));
        parse_warnings = parse_warnings;
      }
