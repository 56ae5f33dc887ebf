-- ===== src/Handlers/Examples.antt =====
-- The handler at a concrete message, in a world that answers every call, in one whose model is
-- down, and in one whose disk is full.
use rfq_workflow_agent.Base.{
  ℕ, ◌+◌, ◌≤◌, ◌≡◌, ◌≢◌, refl, Bool, true, false, none, some, [], ◌∷◌, ◌++◌,
}
use rfq_workflow_agent.Base.Text.{txt}
use rfq_workflow_agent.Domain.Enums.{
  EmailCategory, Direction, RecommendedAction, DecisionPath, Priority, SenderClass,
}
use rfq_workflow_agent.Domain.Models.{NormalizedEmail, ClassificationOutcome, ClassificationResult}
use rfq_workflow_agent.Domain.Policy.Examples.{due}
use rfq_workflow_agent.Domain.Regions.{Region, Rule, RegionMatch}
use rfq_workflow_agent.Domain.Registries.{
  OutlookCategories, for_result, plus_not_sent, for_failure, given,
}
use rfq_workflow_agent.Domain.Registries.Labels.{Owned, labels-Owned}
use rfq_workflow_agent.Handlers.Effects.{
  GraphAttachment, EmailMessage, RecordedExtraction, RfqExtraction, FilledWorkbook, Effect, World,
  ok, raised, ◌>>=◌, on_option,
}
use rfq_workflow_agent.Handlers.Steps.{
  reads_them_later, Handler, Triaged, already_handled, read_before, triage, try_extract,
  read_documents, download, download_all, download_one,
}
use rfq_workflow_agent.Handlers.Run.{handle, handle_verdict, deliver, deliver_to, send, send_again}
use rfq_workflow_agent.Handlers.Quiet.{visible}
use rfq_workflow_agent.Handlers.Once.{sent_count, tried_count, is_ok, reported, deliver-counts}
use rfq_workflow_agent.Handlers.Bounded.{handle-once}
use rfq_workflow_agent.Handlers.Order.{IsStaged, handle-IsStaged}
use rfq_workflow_agent.Handlers.Gate.{
  held_outcome, OutcomeIs, ForwardsTo, deliver-tries_iff, deliver-ForwardsTo,
}
use rfq_workflow_agent.Handlers.Again.{handle-again}
use rfq_workflow_agent.Handlers.Failure.{label_calls, handle-failed, handle_verdict-unwritten}

abbrev categories : OutlookCategories
categories = record {
  by_action = λ a. elim a [ RecommendedAction.forward_to_dst ↦ some (txt "RFQ") | _ ↦ none ];
  needs_review = some (txt "Review");
  not_sent = some (txt "Not sent");
  error = some (txt "Failed");
}

abbrev uae : Region
uae = record {
  forward_to = txt "uae@desk";
  cc = txt "copy@desk" ∷ [];
  template_branch = txt "UAE";
  ports = txt "dubai" ∷ [];
  keywords = txt "u.a.e." ∷ [];
  mailbox_markers = [];
}

abbrev to_uae : RegionMatch
to_uae = record { key = txt "uae"; region = uae; rule = Rule.delivery_port }

abbrev pub handler : Handler
handler = record {
  categories = categories;
  regions = (txt "uae", uae) ∷ [];
  mailbox_address = txt "rfq@desk";
  forward_enabled = true;
  forward_workbook = true;
  reads_attachments = true;
  has_extraction = true;
  has_workbooks = true;
  has_matching = true;
}

abbrev pub email : NormalizedEmail
email = record {
  message_id = some (txt "m1");
  received_at = none;
  mailbox = none;
  region_hint = none;
  sender = none;
  to = [];
  cc = [];
  subject = some (txt "RFQ");
  body_text = txt "Dubai";
  attachments = [];
  parse_warnings = [];
}

abbrev result : ClassificationResult ℕ
result = record {
  category = EmailCategory.new_rfq;
  direction = Direction.inbound_customer;
  requires_action = true;
  is_rfq = true;
  recommended_action = RecommendedAction.forward_to_dst;
  confidence = 95;
  needs_human_review = false;
  priority = Priority.normal;
  decision_path = DecisionPath.llm;
  reasoning = [];
  evidence = [];
  extracted = due;
  rule_hits = [];
  parse_warnings = [];
}

abbrev pub outcome : ClassificationOutcome ℕ
outcome = record {
  result = result;
  thread = record { latest_message = txt "Dubai"; quoted_messages = []; warnings = [] };
  hints = record {
    sender_class = SenderClass.unknown;
    portal = none;
    recipients_are_internal_only = false;
    subject_prefixes = [];
    attachment_kinds = [];
    template_marker_hits = [];
    signals = due;
    is_reply = false;
    quoted_messages_count = 0;
  };
  model = none;
  latency_ms = none;
  input_tokens = none;
  output_tokens = none;
}

abbrev payload : RecordedExtraction
payload = record { items = 1; complete = true; missing_required = []; warnings = []; header = [] }

abbrev extraction : RfqExtraction
extraction = record { items = []; delivery_port = some (txt "Dubai"); payload = payload }

abbrev workbook : FilledWorkbook
workbook = record {
  content = 80 ∷ 75 ∷ [];
  filename = txt "form.xlsx";
  items = 1;
  missing_required = [];
  unread = [];
  conflicts = [];
  why_blank = [];
}

-- The first forward, the one with the form, is refused; the second goes.
abbrev pub world : World ℕ
world = record {
  to_email = λ m. email;
  needs_the_model = λ e. some true;
  download = λ s m a. some (1 ∷ []);
  read = λ s files. some [];
  classify = λ s e files. some outcome;
  journal_decision = λ s. some (some (txt "d1"));
  open_record = λ s. some (txt "r1");
  extract = λ s e files signals. some extraction;
  build = λ s x branch keep_as. some workbook;
  written = λ s. true;
  went = λ s. elim s [ Effect.forward _ _ _ _ _ _ ∷ _ ↦ true | _ ↦ false ];
  took = λ s. true;
  matched = λ s items. some 0;
}

abbrev attachment : GraphAttachment
attachment = record {
  id = some (txt "a1");
  name = some (txt "list.xlsx");
  size = some 1;
  content_type = none;
  is_inline = false;
  is_reference = false;
}

abbrev pub message : EmailMessage
message = record { id = txt "m1"; categories = []; attachments = attachment ∷ [] }

abbrev triaged : Triaged ℕ
triaged = record { outcome = outcome; decision_id = some (txt "d1"); record_id = some (txt "r1") }

retried :
    let s =
      (deliver world handler
        (txt "m1")
        (some to_uae)
        (some (txt "d1"))
        outcome
        (some workbook)
        []).1 in
    (sent_count s ≡ 1) × (tried_count s ≡ 2)
unfolding deliver deliver_to send send_again ◌>>=◌ on_option
retried = (refl, refl)

deliver-counts_example :
    let after =
      deliver world handler (txt "m1") (some to_uae) (some (txt "d1")) outcome (some workbook) [] in
    (is_ok after.0 ≡ true) × (sent_count after.1 ≡ 0 + reported after.0) × (tried_count after.1 ≤ 2)
deliver-counts_example =
    deliver-counts world handler (txt "m1") (some to_uae) (some (txt "d1")) outcome (some workbook)
      []

handle-once_example :
    (sent_count (handle world handler message []).1 ≤ 0 + 1)
    × (tried_count (handle world handler message []).1 ≤ 0 + 2)
handle-once_example = handle-once world handler message []

handle-IsStaged_example : IsStaged (visible (handle world handler message []).1)
handle-IsStaged_example = handle-IsStaged world handler message

deliver-tries_iff_example :
    let after =
      deliver world handler (txt "m1") (some to_uae) (some (txt "d1")) outcome (some workbook) [] in
    (◌≡◌ {A = Bool} true true → 0 + 1 ≤ tried_count after.1)
    × (◌≡◌ {A = Bool} true false
        → (after.1 ≡ []) × OutcomeIs after.0 (held_outcome true false (some to_uae)))
deliver-tries_iff_example =
    deliver-tries_iff world handler (txt "m1") (some to_uae) (some (txt "d1")) outcome
      (some workbook) []

deliver-ForwardsTo_example :
    ForwardsTo uae
      (deliver world handler
        (txt "m1")
        (some to_uae)
        (some (txt "d1"))
        outcome
        (some workbook)
        []).1
deliver-ForwardsTo_example =
    deliver-ForwardsTo world handler (txt "m1") to_uae (some (txt "d1")) outcome (some workbook)

labelled_rfq : for_result categories result ≢ []
unfolding for_result
labelled_rfq e = cc

handle-again_example :
    handle world handler
      (record message {
        categories = plus_not_sent categories (for_result categories result) ++ [];
      })
      []
    ≡ (ok tt, [])
handle-again_example = handle-again world handler message result [] true [] labelled_rfq

labels-Owned_example :
    Owned categories (for_result categories result)
    × Owned categories (plus_not_sent categories (for_result categories result))
    × Owned categories (for_failure categories)
labels-Owned_example = labels-Owned categories result

-- The model is down: nothing is classified.
abbrev down : World ℕ
down = record world { classify = λ s e files. none }

handle-failed_example :
    (took : Bool) × ((handle down handler message []).0 ≡ raised)
    × (visible (handle down handler message []).1
        ≡ label_calls (txt "m1") (for_failure categories) took ++ visible [])
unfolding already_handled read_before triage download download_all download_one read_documents given
    ◌>>=◌ on_option
handle-failed_example = handle-failed down handler message _ (some []) [] refl refl refl

-- The disk is full: no line of the journal can be written.
abbrev full : World ℕ
full = record world { written = λ s. false }

handle_verdict-unwritten_example :
    ((handle_verdict full handler message email [] (some []) triaged []).0 ≡ raised)
    × (visible (handle_verdict full handler message email [] (some []) triaged []).1 ≡ visible [])
unfolding try_extract ◌>>=◌ on_option reads_them_later
handle_verdict-unwritten_example =
    handle_verdict-unwritten full handler message email [] [] (some []) triaged extraction [] refl
      refl (λ t. refl) refl refl
