-- ===== src/Handlers/Run.antt =====
-- `_deliver`, `_send` and `handle` of src/services/handlers.py.
use rfq_workflow_agent.Base.{
  Bool, not, Option, none, some, List, [], ◌∷◌, if◌then◌else◌, or_else, is_some,
}
use rfq_workflow_agent.Base.Text.{Text, non_empty}
use rfq_workflow_agent.Domain.Enums.{DeliveryOutcome, is_forward}
use rfq_workflow_agent.Domain.Models.{NormalizedEmail, ClassificationOutcome}
use rfq_workflow_agent.Domain.Regions.{RegionMatch}
use rfq_workflow_agent.Domain.Registries.{for_result, plus_not_sent, for_failure, given}
use rfq_workflow_agent.Handlers.Effects.{
  EmailMessage, SourceFile, ReadDocument, FilledWorkbook, Delivery, Update, Effect, World, ok,
  Bytes, M, pure, raise, attempt, on_option, ◌>>=◌, ◌>>◌,
}
use rfq_workflow_agent.Handlers.Notes.{note}
use rfq_workflow_agent.Handlers.Steps.{
  Handler, Triaged, Reading, nothing_read, rule_name, or_none, is_undelivered, no_delivery,
  undelivered, file_of, already_handled, download, read_before, triage, update_record, region_of,
  reads_them_later, append, extract, label, match_items, record_failure,
}

-- What the branch of an RFQ leaves behind: the reading, the files and the delivery.
pub record Handled : Type 0 where
  pub reading : Reading
  pub arrived : List SourceFile
  pub delivery : Option Delivery
  pub labels : List Text

module _ {F : Type 0} (w : World F) (h : Handler) where
  -- `_send`: one attempt. `none` is a failure; otherwise the name of the attached file, empty for
  -- none.
  unfoldable pub send :
      Text
      → RegionMatch
      → Option Text
      → Option FilledWorkbook
      → Option FilledWorkbook
      → M (Option Text)
  send id match decision workbook lost s =
      let went = w.went s in
      let comment = note (or_else workbook lost) (is_some workbook) decision in
      let attachment : Option (Text × Bytes) = elim workbook [
        | none ↦ none
        | some b ↦ some (file_of b)
      ] in
      let name : Text = elim workbook [ none ↦ [] | some b ↦ b.filename ] in
      (
        ok (if went then some name else none),
        Effect.forward id match.region.forward_to match.region.cc comment attachment went ∷ s,
      )

  -- The second attempt of `_deliver`, without the form, where the first one carried it and failed.
  unfoldable pub send_again :
      Text
      → RegionMatch
      → Option Text
      → Option FilledWorkbook
      → Option FilledWorkbook
      → Option Text
      → M (Option Text)
  send_again id match decision workbook none sent = pure sent
  send_again id match decision workbook (some b) (some name) = pure (some name)
  send_again id match decision workbook (some b) none = send id match decision none workbook

  unfoldable pub delivered : RegionMatch → Option Text → Delivery
  delivered match none = undelivered DeliveryOutcome.failed match
  delivered match (some name) = record {
    outcome = DeliveryOutcome.sent;
    forwarded_to = some match.region.forward_to;
    cc = match.region.cc;
    region = some match.key;
    region_rule = some (rule_name match.rule);
    attached = given (some name);
  }

  -- The sending part of `_deliver`, to a desk that has an address.
  unfoldable pub deliver_to : Text → RegionMatch → Option Text → Option FilledWorkbook → M Delivery
  deliver_to id match decision workbook = do
    let carrying = if h.forward_workbook then workbook else none
    sent ← send id match decision carrying none
    final ← send_again id match decision workbook carrying sent
    pure (delivered match final)

  -- `_deliver`
  unfoldable pub deliver :
      Text
      → Option RegionMatch
      → Option Text
      → ClassificationOutcome F
      → Option FilledWorkbook
      → M Delivery
  deliver id match decision outcome workbook =
      if not h.forward_enabled
      then pure (no_delivery DeliveryOutcome.disabled)
      else if outcome.result.needs_human_review
      then pure (no_delivery DeliveryOutcome.unsure)
      else on_option match (pure (no_delivery DeliveryOutcome.no_region)) λ m.
        if not (non_empty m.region.forward_to)
        then pure (undelivered DeliveryOutcome.no_address m)
        else deliver_to id m decision workbook

  -- The branch of `handle` for a verdict that forwards.
  unfoldable pub handle_rfq :
      EmailMessage
      → NormalizedEmail
      → Triaged F
      → List SourceFile
      → Option (List ReadDocument)
      → M Handled
  handle_rfq message email triaged arrived files = do
    let match = region_of w h email triaged.outcome none
    fetched ←
        (if reads_them_later w h message files arrived then download w h message else pure arrived)
    reading ← extract w h email match triaged fetched files
    delivery ←
        deliver message.id (or_else reading.region match) triaged.decision_id triaged.outcome
          reading.workbook
    let labels = for_result h.categories triaged.outcome.result
    pure (record {
      reading = reading;
      arrived = fetched;
      delivery = some delivery;
      labels =
          if is_undelivered delivery.outcome then plus_not_sent h.categories labels else labels;
    })

  unfoldable pub handle_other : Triaged F → List SourceFile → M Handled
  handle_other triaged arrived = pure (record {
    reading = nothing_read;
    arrived = arrived;
    delivery = none;
    labels = for_result h.categories triaged.outcome.result;
  })

  -- `_journal`, for an email that was delivered or was to be.
  unfoldable pub journal : Option Text → Option Delivery → List Text → Bool → M Unit
  journal decision none labels labelled = pure tt
  journal decision (some d) labels labelled =
      append w h (Effect.journal_delivery decision d labels labelled)

  -- What `handle` does with a verdict.
  unfoldable pub settle : EmailMessage → Triaged F → Handled → M Unit
  settle message triaged done = do
    labelled ← label w h message.id done.labels
    journal triaged.decision_id done.delivery done.labels labelled
    let form : Option (Text × Bytes) = elim (done.reading.workbook) [
      | none ↦ none
      | some b ↦ some (file_of b)
    ]
    update_record w h triaged.record_id
        (Update.closing (or_none done.arrived) done.labels labelled done.delivery form)
    match_items w h triaged.record_id done.reading.items

  -- The handler of a failed classification: label it, record it, and raise again.
  unfoldable pub handle_failure : EmailMessage → List SourceFile → M Unit
  handle_failure message arrived = do
    took ← label w h message.id (for_failure h.categories)
    record_failure w h arrived
    raise

  unfoldable pub handle_verdict :
      EmailMessage
      → NormalizedEmail
      → List SourceFile
      → Option (List ReadDocument)
      → Triaged F
      → M Unit
  handle_verdict message email arrived files triaged = do
    done ←
        (if is_forward triaged.outcome.result.recommended_action
          then handle_rfq message email triaged arrived files
          else handle_other triaged arrived)
    settle message triaged done

  -- The part of `handle` behind the test for a label of our own.
  unfoldable pub handle_new : EmailMessage → M Unit
  handle_new message = do
    let email = w.to_email message
    (arrived, files) ← read_before w h message email
    tried ← attempt (triage w h email files)
    on_option tried (handle_failure message arrived) (handle_verdict message email arrived files)

  -- `ClassifyingEmailHandler.handle`
  unfoldable pub handle : EmailMessage → M Unit
  handle message = if already_handled w h message then pure tt else handle_new message
