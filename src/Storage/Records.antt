-- ===== src/Storage/Records.antt =====
-- The records of src/infrastructure/storage/records.py. `F` stands for Python's `float`: prices and
-- margins are only kept. A `datetime` is a number. The columns of a product are pairs of texts.
use rfq_workflow_agent.Base.{ℕ, Bool, Option, List}
use rfq_workflow_agent.Base.Text.{Text}
use rfq_workflow_agent.Domain.Enums.{
  EmailCategory, Direction, RecommendedAction, DecisionPath, Priority,
}
use rfq_workflow_agent.Handlers.Effects.{RecordedExtraction, Delivery}

pub record RecordedAddress : Type 0 where
  pub name : Option Text
  pub address : Option Text

pub record RecordedFile : Type 0 where
  pub filename : Text
  pub content_type : Option Text
  pub size_bytes : ℕ
  pub saved_as : Option Text
  pub note : Option Text

-- The names of enum members are kept as the members.
pub record RecordedVerdict (F : Type 0) : Type 0 where
  pub category : EmailCategory
  pub is_rfq : Bool
  pub requires_action : Bool
  pub recommended_action : RecommendedAction
  pub direction : Direction
  pub priority : Priority
  pub confidence : F
  pub needs_human_review : Bool
  pub decision_path : DecisionPath
  pub reasoning : Text
  pub evidence : List Text
  pub rule_hits : List Text
  pub model : Option Text

pub record RecordedCandidate : Type 0 where
  pub item_code : Text
  pub description : Text
  pub confidence : Option ℕ
  pub why : Text
  pub item : List (Text × Text)

pub record RecordedMatch (F : Type 0) : Type 0 where
  pub index : ℕ
  pub verbatim : Text
  pub query : Text
  pub customer_code : Option Text
  pub quantity : Option Text
  pub uom : Option Text
  pub item_code : Option Text
  pub item_description : Text
  pub confidence : Option ℕ
  pub item : List (Text × Text)
  pub how : Text
  pub why : Text
  pub candidates : List RecordedCandidate
  pub offer_unit_price : Option F
  pub offer_received_at : Option ℕ
  pub approved_unit_price : Option F
  pub confirmed_item_code : Option Text

pub record RecordedInquiry : Type 0 where
  pub supplier : Text
  pub body : Text
  pub sent_at : ℕ
  pub lines : List ℕ

pub record RecordedApproval (F : Type 0) : Type 0 where
  pub approved_at : ℕ
  pub margin_stock : F
  pub margin_jit : F

pub record EmailRecord (F : Type 0) : Type 0 where
  pub id : Text
  pub rfq_reference : Option Text
  pub decision_id : Option Text
  pub message_id : Option Text
  pub source : Text
  pub received_at : Option ℕ
  pub recorded_at : ℕ
  pub updated_at : ℕ
  pub mailbox : Option Text
  pub sender : Option RecordedAddress
  pub to : List RecordedAddress
  pub cc : List RecordedAddress
  pub subject : Option Text
  pub body_chars : ℕ
  pub body_file : Option Text
  pub attachments : List RecordedFile
  pub labels : List Text
  pub labelled : Option Bool
  pub verdict : Option (RecordedVerdict F)
  pub extraction : Option RecordedExtraction
  pub matching : List (RecordedMatch F)
  pub inquiries : List RecordedInquiry
  pub approval : Option (RecordedApproval F)
  pub delivery : Option Delivery
  pub form : Option RecordedFile
  pub error : Option Text
