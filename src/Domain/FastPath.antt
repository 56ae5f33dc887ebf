-- ===== src/Domain/FastPath.antt =====
-- src/domain/rules/fast_path.py and the parts of hints.py that place the people of an email: the
-- emails that need no model.
pub mod Rules
use rfq_workflow_agent.Base.{
  Bool, true, false, not, ◌&&◌, ◌||◌, Option, none, some, List, [], ◌∷◌, ◌++◌, all, length, ltb,
  if◌then◌else◌, or_else, any, filter,
}
use rfq_workflow_agent.Base.Text.{Text, txt, strip, non_empty}
use rfq_workflow_agent.Domain.Enums.{EmailCategory, Direction, AttachmentKind}
use rfq_workflow_agent.Domain.Models.{
  EmailAddress, Attachment, NormalizedEmail, SplitThread, domain, Signals, Hints, is_reply,
}
use rfq_workflow_agent.Domain.Registries.{
  Registries, is_internal_domain, classify_sender, find_portal_by_domain, find_portal_in_text,
  matching_markers, given,
}

pub record FastPathDecision (F : Type 0) : Type 0 where
  pub category : EmailCategory
  pub direction : Direction
  pub confidence : F
  pub rule : Text

-- `email.sender.domain if email.sender else None`
unfoldable pub sender_domain : NormalizedEmail → Option Text
unfolding domain
sender_domain email = elim (email.sender) [ none ↦ none | some s ↦ domain s ]

unfoldable pub sender_address : NormalizedEmail → Option Text
sender_address email = elim (email.sender) [ none ↦ none | some s ↦ s.address ]

-- `[*email.to, *email.cc]`
abbrev pub recipients : NormalizedEmail → List EmailAddress
recipients email = email.to ++ email.cc

module _ {F : Type 0} (r : Registries F) where
  -- `all(...)` over the recipients, behind the test that there are some.
  unfoldable pub all_internal : List EmailAddress → Bool
  all_internal [] = false
  all_internal (a ∷ rest) = all (λ person. is_internal_domain r (domain person)) (a ∷ rest)

  -- `_recipients_are_internal_only`
  unfoldable pub recipients_are_internal_only : NormalizedEmail → Bool
  recipients_are_internal_only email = all_internal (recipients email)

  -- `_internal_only`
  unfoldable pub internal_only : NormalizedEmail → Option (FastPathDecision F)
  internal_only email =
      if not (is_internal_domain r (sender_domain email))
      then none
      else if not (recipients_are_internal_only email)
      then none
      else some (record {
        category = EmailCategory.internal;
        direction = Direction.internal;
        confidence = r.fast_path.confidence.internal_only;
        rule = txt "R1_internal_only";
      })

  -- `_empty_body`
  unfoldable pub empty_body : NormalizedEmail → SplitThread → Option (FastPathDecision F)
  empty_body email thread = elim (email.attachments) [
    | _ ∷ _ ↦ none
    | [] ↦
        if ltb (length (strip thread.latest_message)) r.fast_path.min_body_chars
        then some (record {
          category = EmailCategory.other_non_actionable;
          direction = Direction.unknown;
          confidence = r.fast_path.confidence.empty_body;
          rule = txt "R2_empty_body";
        })
        else none
  ]

  -- `match_fast_path`
  unfoldable pub match_fast_path : NormalizedEmail → SplitThread → Option (FastPathDecision F)
  match_fast_path email thread = or_else (internal_only email) (empty_body email thread)
