-- ===== src/Handlers/Steps.antt =====
-- The methods of `ClassifyingEmailHandler` (src/services/handlers.py) and `EmailTriage.run`
-- (src/services/triage.py), call by call.
use rfq_workflow_agent.Base.{
  ℕ, suc, Bool, true, false, not, ◌&&◌, ◌||◌, Option, none, some, List, [], ◌∷◌, ◌++◌,
  if◌then◌else◌, any, length, or_else,
}
use rfq_workflow_agent.Base.Text.{Text, txt, member}
use rfq_workflow_agent.Domain.Enums.{DeliveryOutcome}
use rfq_workflow_agent.Domain.Models.{NormalizedEmail, ClassificationOutcome}
use rfq_workflow_agent.Domain.Regions.{Regions, Rule, RegionMatch, resolve_region, or_blank}
use rfq_workflow_agent.Domain.Registries.{OutlookCategories, for_failure, all_names, given}
use rfq_workflow_agent.Handlers.Effects.{
  GraphAttachment, EmailMessage, Bytes, SourceFile, LineItem, ReadDocument, RfqExtraction,
  FilledWorkbook, Delivery, Update, Effect, World, ok, M, pure, ask, attempt, on_option, ◌>>=◌,
  ◌>>◌,
}

-- What `ClassifyingEmailHandler.__init__` keeps.
pub record Handler : Type 0 where
  pub categories : OutlookCategories
  pub regions : Regions
  pub mailbox_address : Text
  pub forward_enabled : Bool
  pub forward_workbook : Bool
  pub reads_attachments : Bool
  pub has_extraction : Bool
  pub has_workbooks : Bool
  pub has_matching : Bool

pub record Triaged (F : Type 0) : Type 0 where
  pub outcome : ClassificationOutcome F
  pub decision_id : Option Text
  pub record_id : Option Text

-- `Read`
pub record Reading : Type 0 where
  pub items : List LineItem
  pub region : Option RegionMatch
  pub workbook : Option FilledWorkbook

abbrev pub nothing_read : Reading
nothing_read = record { items = []; region = none; workbook = none }

unfoldable pub rule_name : Rule → Text
rule_name Rule.region_hint = txt "region_hint"
rule_name Rule.delivery_port = txt "delivery_port"
rule_name Rule.keyword = txt "keyword"
rule_name Rule.mailbox = txt "mailbox"

-- `attachment.size or (len(data) if data else 0)`
unfoldable pub size_or : Option ℕ → Option Bytes → ℕ
size_or (some (suc n)) content = suc n
size_or _ (some b) = length b
size_or _ none = 0

-- `_source_file`
unfoldable pub source_file : GraphAttachment → Option Bytes → SourceFile
source_file a content = record {
  filename = elim (given a.name) [ none ↦ txt "attachment" | some n ↦ n ];
  content = content;
  content_type = a.content_type;
  size_bytes = size_or a.size content;
  is_inline = a.is_inline;
  is_reference = a.is_reference;
}

-- `files or None`
abbrev pub or_none : List SourceFile → Option (List SourceFile)
or_none [] = none
or_none (f ∷ fs) = some (f ∷ fs)

-- The outcomes of `UNDELIVERED`.
abbrev pub is_undelivered : DeliveryOutcome → Bool
is_undelivered DeliveryOutcome.no_region = true
is_undelivered DeliveryOutcome.no_address = true
is_undelivered DeliveryOutcome.failed = true
is_undelivered _ = false

abbrev pub no_delivery : DeliveryOutcome → Delivery
no_delivery o = record {
  outcome = o;
  forwarded_to = none;
  cc = [];
  region = none;
  region_rule = none;
  attached = none;
}

-- The region and the rule of a match that could not be delivered to.
abbrev pub undelivered : DeliveryOutcome → RegionMatch → Delivery
undelivered o m = record (no_delivery o) {
  region = some m.key;
  region_rule = some (rule_name m.rule);
}

abbrev pub file_of : FilledWorkbook → Text × Bytes
file_of b = (b.filename, b.content)

-- `attachment.id and not attachment.is_reference`
abbrev pub fetchable : GraphAttachment → Option Text
fetchable a = if a.is_reference then none else given a.id

module _ {F : Type 0} (w : World F) (h : Handler) where
  -- `_already_handled`
  unfoldable pub already_handled : EmailMessage → Bool
  already_handled message = any (λ c. member c (all_names h.categories)) message.categories

  -- The body of the loop of `_download`: a refused download leaves the file without content.
  unfoldable pub download_one : Text → GraphAttachment → M SourceFile
  download_one id a = on_option (fetchable a) (pure (source_file a none)) λ key. do
    content ← attempt (ask (Effect.download id key) (λ s. w.download s id key))
    pure (source_file a content)

  unfoldable pub download_all : Text → List GraphAttachment → M (List SourceFile)
  download_all id [] = pure []
  download_all id (a ∷ rest) = do
    file ← download_one id a
    files ← download_all id rest
    pure (file ∷ files)

  -- `_download`
  unfoldable pub download : EmailMessage → M (List SourceFile)
  download message = download_all message.id message.attachments

  unfoldable pub read_documents : List SourceFile → M (List ReadDocument)
  read_documents arrived = ask (Effect.read arrived) (λ s. w.read s arrived)

  abbrev pub has_files : EmailMessage → Bool
  has_files message = elim (message.attachments) [ [] ↦ false | _ ∷ _ ↦ true ]

  -- `_read`
  unfoldable pub read_before :
      EmailMessage → NormalizedEmail → M (List SourceFile × Option (List ReadDocument))
  read_before message email =
      if not h.reads_attachments || not h.has_extraction
      then pure ([], none)
      else if not (has_files message)
      then pure ([], none)
      else on_option (w.needs_the_model email) (pure ([], none)) λ needed.
        if not needed then pure ([], none) else do
          arrived ← download message
          files ← attempt (read_documents arrived)
          pure (arrived, files)

  -- `EmailTriage.run`
  unfoldable pub triage : NormalizedEmail → Option (List ReadDocument) → M (Triaged F)
  triage email files = do
    outcome ← ask (Effect.classify email files) (λ s. w.classify s email files)
    decision ← ask Effect.journal_decision w.journal_decision
    record_id ← ask (Effect.open_record decision) (λ s. some (w.open_record s))
    pure (record { outcome = outcome; decision_id = decision; record_id = record_id })

  -- `EmailRecords.update`, which does nothing where there is no record.
  unfoldable pub update_record : Option Text → Update → M Unit
  update_record none u = pure tt
  update_record (some id) u = ask (Effect.update id u) (λ s. some tt)

  -- `_region`
  unfoldable pub region_of :
      NormalizedEmail → ClassificationOutcome F → Option Text → Option RegionMatch
  region_of email outcome port =
      resolve_region h.regions email.region_hint
        (or_else (given port) outcome.result.extracted.delivery_port)
        (or_blank email.subject ++ (txt "\n" ++ outcome.thread.latest_message))
        (some h.mailbox_address)

  -- `_reads_them_later`
  unfoldable pub reads_them_later :
      EmailMessage → Option (List ReadDocument) → List SourceFile → Bool
  reads_them_later message (some _) arrived = false
  reads_them_later message none (_ ∷ _) = false
  reads_them_later message none [] = h.has_extraction && has_files message

  -- `_fill`
  unfoldable pub fill : RfqExtraction → Option Text → Option Text → M (Option FilledWorkbook)
  fill extracted branch decision =
      if not h.has_workbooks
      then pure none
      else attempt (ask (Effect.build branch decision) (λ s. w.build s extracted branch decision))

  -- An append to the journal, which raises where the line cannot be written.
  unfoldable pub append : Effect → M Unit
  append e = ask e (λ s. if w.written s then some tt else none)

  -- What `_extract` tries: the reading at hand or a new one, and the extraction from it.
  unfoldable pub try_extract :
      NormalizedEmail
      → ClassificationOutcome F
      → List SourceFile
      → Option (List ReadDocument)
      → M RfqExtraction
  try_extract email outcome arrived files = do
    documents ← on_option files (read_documents arrived) pure
    ask (Effect.extract documents) (λ s. w.extract s email documents outcome.hints.signals)

  -- The part of `_extract` behind its `try`.
  unfoldable pub keep_extraction :
      NormalizedEmail → Option RegionMatch → Triaged F → RfqExtraction → M Reading
  keep_extraction email match triaged extracted = do
    let found = or_else (region_of email triaged.outcome extracted.delivery_port) match
    let branch : Option Text = elim found [ none ↦ none | some m ↦ some m.region.template_branch ]
    workbook ← fill extracted branch triaged.decision_id
    append (Effect.journal_extraction triaged.decision_id extracted.payload)
    update_record triaged.record_id (Update.reading extracted.payload)
    pure (record { items = extracted.items; region = found; workbook = workbook })

  -- `_extract`
  unfoldable pub extract :
      NormalizedEmail
      → Option RegionMatch
      → Triaged F
      → List SourceFile
      → Option (List ReadDocument)
      → M Reading
  extract email match triaged arrived files = if not h.has_extraction then pure nothing_read else do
    tried ← attempt (try_extract email triaged.outcome arrived files)
    on_option tried (pure nothing_read) (keep_extraction email match triaged)

  -- `_label`
  unfoldable pub label : Text → List Text → M Bool
  label id [] s = (ok true, s)
  label id (n ∷ ns) s = let took = w.took s in (ok took, Effect.set_categories id (n ∷ ns) took ∷ s)

  -- `_match`; the answer of the matching is kept by the record.
  unfoldable pub match_items : Option Text → List LineItem → M Unit
  match_items record_id [] = pure tt
  match_items record_id (i ∷ is) = if not h.has_matching then pure tt else do
    tried ← attempt (ask (Effect.match_lines (i ∷ is)) (λ s. w.matched s (i ∷ is)))
    on_option tried (pure tt) (λ n. update_record record_id (Update.matching n))

  -- `_record_failure`
  unfoldable pub record_failure : List SourceFile → M Unit
  record_failure arrived = do
    record_id ← ask (Effect.open_record none) (λ s. some (w.open_record s))
    update_record record_id (Update.failure (or_none arrived) (for_failure h.categories))
