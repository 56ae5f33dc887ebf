-- ===== src/Domain/Enums.antt =====
-- src/domain/enums.py: one data type per `StrEnum`, and the equality tests that the code makes.
use rfq_workflow_agent.Base.{Bool, true, false}

pub data EmailCategory : Type 0 where
  new_rfq updated_rfq portal_rfq_notification customer_order_po : EmailCategory
  customer_clarification supplier_correspondence quote_status_notification : EmailCategory
  internal outbound_own spam_marketing auto_reply_system : EmailCategory
  other_non_actionable uncertain : EmailCategory

pub data Direction : Type 0 where
  inbound_customer inbound_supplier inbound_portal internal outbound_own unknown : Direction

pub data RecommendedAction : Type 0 where
  forward_to_dst route_to_cs route_to_sourcing : RecommendedAction
  route_to_order_team human_review ignore : RecommendedAction

pub data DecisionPath : Type 0 where
  rules_fast_path llm llm_with_guardrail_override : DecisionPath

pub data Priority : Type 0 where
  urgent normal low : Priority

pub data AttachmentKind : Type 0 where
  rfq_form_xlsx rfq_form_pdf signature_image other : AttachmentKind

pub data DeliveryOutcome : Type 0 where
  sent disabled unsure no_region no_address failed : DeliveryOutcome

pub data SenderClass : Type 0 where
  internal_own internal_system known_customer known_supplier : SenderClass
  portal external_unknown unknown : SenderClass

-- `action is RecommendedAction.IGNORE`
abbrev pub is_ignore : RecommendedAction → Bool
is_ignore RecommendedAction.ignore = true
is_ignore _ = false

-- `action is RecommendedAction.FORWARD_TO_DST`
abbrev pub is_forward : RecommendedAction → Bool
is_forward RecommendedAction.forward_to_dst = true
is_forward _ = false

-- `kind in RFQ_FORM_ATTACHMENTS` (domain/policy.py)
abbrev pub is_rfq_form : AttachmentKind → Bool
is_rfq_form AttachmentKind.rfq_form_xlsx = true
is_rfq_form AttachmentKind.rfq_form_pdf = true
is_rfq_form _ = false

-- `path is DecisionPath.LLM`
abbrev pub is_llm : DecisionPath → Bool
is_llm DecisionPath.llm = true
is_llm _ = false
