-- ===== src/Domain/Hints.antt =====
-- src/domain/rules/hints.py, but for the rendering into a prompt. The extraction of signals and the kind
-- of an attachment by its name are fields of `Readers`.
use rfq_workflow_agent.Base.{
  ℕ, zero, suc, ◌-◌, ◌==◌, Option, none, some, List, [], ◌∷◌, ◌++◌, length, take, any, filter,
  or_else,
}
use rfq_workflow_agent.Base.Text.{Text, txt, lstrip, strip}
use rfq_workflow_agent.Domain.Enums.{AttachmentKind}
use rfq_workflow_agent.Domain.Models.{
  Attachment, NormalizedEmail, SplitThread, Signals, Hints, is_reply,
}
use rfq_workflow_agent.Domain.Registries.{
  Registries, classify_sender, find_portal_by_domain, find_portal_in_text, matching_markers,
}
use rfq_workflow_agent.Domain.FastPath.{sender_domain, sender_address, recipients_are_internal_only}
use rfq_workflow_agent.Preprocessing.Thread.{behind, then_line}
use rfq_workflow_agent.Extraction.Header.{upper}

pub record Readers : Type 0 where
  pub classify_attachment : Text → Option ℕ → AttachmentKind
  pub extract_signals : Text → Signals

-- `_subject_and_body`
unfoldable pub subject_and_body : Option Text → Text → Text
subject_and_body none body = body
subject_and_body (some []) body = body
subject_and_body (some (c ∷ s)) body = (c ∷ s) ++ 10 ∷ body

-- `_kind_of`
unfoldable pub kind_of : Readers → Attachment → AttachmentKind
kind_of readers a = elim (a.kind) [
  | AttachmentKind.rfq_form_xlsx ↦ AttachmentKind.rfq_form_xlsx
  | AttachmentKind.rfq_form_pdf ↦ AttachmentKind.rfq_form_pdf
  | AttachmentKind.signature_image ↦ AttachmentKind.signature_image
  | AttachmentKind.other ↦ readers.classify_attachment a.filename a.size_bytes
]

-- The kinds in the order of their names, as `sorted` puts them.
abbrev pub kind_place : AttachmentKind → ℕ
kind_place AttachmentKind.other = 0
kind_place AttachmentKind.rfq_form_pdf = 1
kind_place AttachmentKind.rfq_form_xlsx = 2
kind_place AttachmentKind.signature_image = 3

abbrev pub sorted_kinds : List AttachmentKind
sorted_kinds =
    AttachmentKind.other ∷ AttachmentKind.rfq_form_pdf ∷ AttachmentKind.rfq_form_xlsx
    ∷ AttachmentKind.signature_image ∷ []

-- `sorted({...})`
unfoldable pub kinds_of : Readers → List Attachment → List AttachmentKind
unfolding kind_of
kinds_of readers files =
    filter (λ k. any (λ a. kind_place k == kind_place (kind_of readers a)) files) sorted_kinds

-- `_SUBJECT_PREFIXES`: what follows a prefix.
unfoldable pub behind_prefix : Text → Option Text
behind_prefix s =
    let colon = λ (word : Text). then_line (behind word s) (λ a. behind (txt ":") (lstrip a)) in
    or_else (colon (txt "re"))
      (or_else (colon (txt "fw")) (or_else (colon (txt "fwd")) (behind (txt "[updated]") s)))

-- `_subject_prefixes`: each round of the loop takes characters off, so that their number is fuel enough.
unfoldable pub prefixes_from : ℕ → Text → List Text
prefixes_from zero rest = []
prefixes_from (suc fuel) rest = elim (behind_prefix (lstrip rest)) [
  | none ↦ []
  | some more ↦
      upper (strip (take (length (lstrip rest) - length more) (lstrip rest)))
      ∷ prefixes_from fuel more
]

unfoldable pub subject_prefixes : Option Text → List Text
unfolding prefixes_from
subject_prefixes none = []
subject_prefixes (some subject) = prefixes_from (length subject) subject

module _ {F : Type 0} (r : Registries F) (readers : Readers) where
  -- `_find_portal`
  unfoldable pub find_portal : Text → Option Text → Option Text
  find_portal text domain = or_else (find_portal_by_domain r domain) (find_portal_in_text r text)

  -- `build_hints`
  unfoldable pub build_hints : NormalizedEmail → SplitThread → Hints
  unfolding find_portal subject_and_body kinds_of subject_prefixes
  build_hints email thread = record {
    sender_class = classify_sender r (sender_address email) (sender_domain email);
    portal = find_portal thread.latest_message (sender_domain email);
    recipients_are_internal_only = recipients_are_internal_only r email;
    subject_prefixes = subject_prefixes email.subject;
    attachment_kinds = kinds_of readers email.attachments;
    template_marker_hits = matching_markers r thread.latest_message;
    signals = readers.extract_signals (subject_and_body email.subject thread.latest_message);
    is_reply = is_reply thread;
    quoted_messages_count = length thread.quoted_messages;
  }
