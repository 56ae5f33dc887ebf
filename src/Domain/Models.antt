-- ===== src/Domain/Models.antt =====
-- src/domain/models.py: the internal shape of an email, the hints and the verdict. `F` stands for
-- Python's `float`. A `datetime` is a number that the code only passes on.
use rfq_workflow_agent.Base.{
  ℕ, ◌==◌, Bool, true, false, Option, none, some, List, [], ◌∷◌, or_else, if◌then◌else◌,
}
use rfq_workflow_agent.Base.Text.{Text, lower}
use rfq_workflow_agent.Domain.Enums.{
  EmailCategory, Direction, RecommendedAction, DecisionPath, Priority, AttachmentKind, SenderClass,
}

pub record EmailAddress : Type 0 where
  pub name : Option Text
  pub address : Option Text

-- What follows the last `@` (`rsplit("@", 1)[1]`), or `none` where there is no `@`.
unfoldable pub after_last_at : Text → Option Text
after_last_at [] = none
after_last_at (c ∷ s) = or_else (after_last_at s) (if c == b'@' then some s else none)

-- `EmailAddress.domain`
unfoldable pub domain : EmailAddress → Option Text
unfolding after_last_at lower
domain a = elim (a.address) [
  | none ↦ none
  | some address ↦ elim (after_last_at address) [ none ↦ none | some d ↦ some (lower d) ]
]

pub record Attachment : Type 0 where
  pub filename : Text
  pub content_type : Option Text
  pub size_bytes : Option ℕ
  pub kind : AttachmentKind
  pub extracted_text : Option Text

pub record NormalizedEmail : Type 0 where
  pub message_id : Option Text
  pub received_at : Option ℕ
  pub mailbox : Option Text
  pub region_hint : Option Text
  pub sender : Option EmailAddress
  pub to : List EmailAddress
  pub cc : List EmailAddress
  pub subject : Option Text
  pub body_text : Text
  pub attachments : List Attachment
  pub parse_warnings : List Text

pub record QuotedMessage : Type 0 where
  pub raw : Text
  pub from_address : Option Text
  pub sent_at : Option Text
  pub subject : Option Text

pub record SplitThread : Type 0 where
  pub latest_message : Text
  pub quoted_messages : List QuotedMessage
  pub warnings : List Text

-- `SplitThread.is_reply`
abbrev pub is_reply : SplitThread → Bool
is_reply t = elim (t.quoted_messages) [ [] ↦ false | _ ∷ _ ↦ true ]

pub record Signals : Type 0 where
  pub vessel_name : Option Text
  pub imo : Option Text
  pub delivery_port : Option Text
  pub eta : Option Text
  pub rfq_reference : Option Text
  pub quotation_reference : Option Text
  pub ems_reference : Option Text
  pub quote_due_date : Option Text
  pub department_or_category : Option Text
  pub urgency_markers : List Text

pub record ClassificationResult (F : Type 0) : Type 0 where
  pub category : EmailCategory
  pub direction : Direction
  pub requires_action : Bool
  pub is_rfq : Bool
  pub recommended_action : RecommendedAction
  pub confidence : F
  pub needs_human_review : Bool
  pub priority : Priority
  pub decision_path : DecisionPath
  pub reasoning : Text
  pub evidence : List Text
  pub extracted : Signals
  pub rule_hits : List Text
  pub parse_warnings : List Text

pub record Hints : Type 0 where
  pub sender_class : SenderClass
  pub portal : Option Text
  pub recipients_are_internal_only : Bool
  pub subject_prefixes : List Text
  pub attachment_kinds : List AttachmentKind
  pub template_marker_hits : List Text
  pub signals : Signals
  pub is_reply : Bool
  pub quoted_messages_count : ℕ

pub record ClassificationOutcome (F : Type 0) : Type 0 where
  pub result : ClassificationResult F
  pub thread : SplitThread
  pub hints : Hints
  pub model : Option Text
  pub latency_ms : Option ℕ
  pub input_tokens : Option ℕ
  pub output_tokens : Option ℕ
