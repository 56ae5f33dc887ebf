-- ===== src/Handlers/Quiet.antt =====
-- The calls that a customer, a desk or the journal of deliveries can see, and the methods that make
-- none of them.
use rfq_workflow_agent.Base.{
  ◌≡◌, refl, ◌∙◌, Bool, true, false, Option, none, some, List, [], ◌∷◌, filter, arith,
  if◌then◌else◌,
}
use rfq_workflow_agent.Base.Text.{Text}
use rfq_workflow_agent.Domain.Models.{NormalizedEmail, ClassificationOutcome}
use rfq_workflow_agent.Domain.Regions.{RegionMatch}
use rfq_workflow_agent.Handlers.Effects.{
  GraphAttachment, EmailMessage, SourceFile, LineItem, ReadDocument, RfqExtraction,
  RecordedExtraction, Update, Effect, Trace, World, Result, ok, raised, M, pure, ask, attempt,
  on_option, then_do, ◌>>=◌,
}
use rfq_workflow_agent.Handlers.Steps.{
  Handler, Triaged, download_one, download_all, download, read_documents, read_before, triage,
  update_record, fill, append, try_extract, keep_extraction, extract, match_items, record_failure,
}

-- A forward, a label, or a line of the journal about a delivery.
abbrev pub is_visible : Effect → Bool
is_visible (Effect.forward _ _ _ _ _ _) = true
is_visible (Effect.set_categories _ _ _) = true
is_visible (Effect.journal_delivery _ _ _ _) = true
is_visible _ = false

abbrev pub visible : Trace → Trace
visible = filter is_visible

-- The method makes no visible call, whether it returns or raises.
pub record Quiet {A : Type 0} (m : M A) : Type 0 where
  pub at : (s : Trace) → visible (m s).1 ≡ visible s

module _ {A : Type 0} where
  pub Quiet-pure : (a : A) → Quiet (pure a)
  unfolding pure
  Quiet-pure a = record { at = λ s. refl }

  pub Quiet-ask :
      (e : Effect) (answer : Trace → Option A) → is_visible e ≡ false → Quiet (ask e answer)
  unfolding ask
  Quiet-ask e answer h = record { at = λ s. ground arith }

  pub Quiet-attempt : (m : M A) → Quiet m → Quiet (attempt m)
  unfolding attempt
  Quiet-attempt m q = record { at = q.at }

  pub Quiet-if : (b : Bool) (m n : M A) → Quiet m → Quiet n → Quiet (if b then m else n)
  Quiet-if true m n qm qn = qm
  Quiet-if false m n qm qn = qn

module _ {A B : Type 0} where
  then_do-visible :
      (f : A → M B) (r : Result A) (s : Trace)
      → ((a : A) → Quiet (f a))
      → visible (then_do f r s).1 ≡ visible s
  then_do-visible f (ok a) s q = (q a).at s
  then_do-visible f raised s q = refl

  pub Quiet-bind : (m : M A) (f : A → M B) → Quiet m → ((a : A) → Quiet (f a)) → Quiet (m >>= f)
  unfolding ◌>>=◌
  Quiet-bind m f qm qf = record { at = λ s. then_do-visible f (m s).0 (m s).1 qf ∙ qm.at s }

  pub Quiet-option :
      (o : Option A) (n : M B) (f : A → M B)
      → Quiet n
      → ((a : A) → Quiet (f a))
      → Quiet (on_option o n f)
  unfolding on_option
  Quiet-option none n f qn qf = qn
  Quiet-option (some a) n f qn qf = qf a

ruleset quiet_rules = (Quiet-pure, Quiet-attempt, Quiet-if, Quiet-bind, Quiet-option)

module _ {F : Type 0} (w : World F) (h : Handler) where
  Quiet-download : (id key : Text) → Quiet (ask (Effect.download id key) (λ s. w.download s id key))
  Quiet-download id key = Quiet-ask _ _ refl

  download_one-Quiet : (id : Text) (a : GraphAttachment) → Quiet (download_one w h id a)
  unfolding download_one
  download_one-Quiet id a = search (quiet_rules, Quiet-download)

  download_all-Quiet :
      (id : Text) (files : List GraphAttachment) → Quiet (download_all w h id files)
  unfolding download_all
  download_all-Quiet id [] = Quiet-pure []
  download_all-Quiet id (a ∷ rest) =
      Quiet-bind _ _ (download_one-Quiet id a)
        λ file. Quiet-bind _ _ (download_all-Quiet id rest) (λ files. Quiet-pure _)

  pub download-Quiet : (message : EmailMessage) → Quiet (download w h message)
  unfolding download
  download-Quiet message = download_all-Quiet message.id message.attachments

  read_documents-Quiet : (files : List SourceFile) → Quiet (read_documents w h files)
  unfolding read_documents
  read_documents-Quiet files = Quiet-ask _ _ refl

  pub read_before-Quiet :
      (message : EmailMessage) (email : NormalizedEmail) → Quiet (read_before w h message email)
  unfolding read_before
  read_before-Quiet message email =
      search (quiet_rules, download-Quiet, read_documents-Quiet) depth 9

  pub triage-Quiet :
      (email : NormalizedEmail) (files : Option (List ReadDocument))
      → Quiet (triage w h email files)
  unfolding triage
  triage-Quiet email files = Quiet-bind _ _ (Quiet-ask _ _ refl) λ outcome.
      Quiet-bind _ _ (Quiet-ask _ _ refl)
        λ decision. Quiet-bind _ _ (Quiet-ask _ _ refl) (λ record_id. Quiet-pure _)

  pub update_record-Quiet : (id : Option Text) (u : Update) → Quiet (update_record w h id u)
  unfolding update_record
  update_record-Quiet none u = Quiet-pure tt
  update_record-Quiet (some id) u = Quiet-ask _ _ refl

  journal_extraction-Quiet :
      (decision : Option Text) (p : RecordedExtraction)
      → Quiet (append w h (Effect.journal_extraction decision p))
  unfolding append
  journal_extraction-Quiet decision p = Quiet-ask _ _ refl

  fill-Quiet :
      (extracted : RfqExtraction) (branch decision : Option Text)
      → Quiet (fill w h extracted branch decision)
  unfolding fill
  fill-Quiet extracted branch decision =
      Quiet-if _ _ _ (Quiet-pure none) (Quiet-attempt _ (Quiet-ask _ _ refl))

  try_extract-Quiet :
      (email : NormalizedEmail) (outcome : ClassificationOutcome F) (arrived : List SourceFile)
      (files : Option (List ReadDocument))
      → Quiet (try_extract w h email outcome arrived files)
  unfolding try_extract
  try_extract-Quiet email outcome arrived files =
      Quiet-bind _ _ (Quiet-option files _ _ (read_documents-Quiet arrived) Quiet-pure)
        (λ documents. Quiet-ask _ _ refl)

  keep_extraction-Quiet :
      (email : NormalizedEmail) (match : Option RegionMatch) (triaged : Triaged F)
      (extracted : RfqExtraction)
      → Quiet (keep_extraction w h email match triaged extracted)
  unfolding keep_extraction
  keep_extraction-Quiet email match triaged extracted =
      Quiet-bind _ _ (fill-Quiet _ _ _) λ workbook.
        Quiet-bind _ _ (journal_extraction-Quiet _ _)
          λ _. Quiet-bind _ _ (update_record-Quiet _ _) (λ _. Quiet-pure _)

  pub extract-Quiet :
      (email : NormalizedEmail) (match : Option RegionMatch) (triaged : Triaged F)
      (arrived : List SourceFile) (files : Option (List ReadDocument))
      → Quiet (extract w h email match triaged arrived files)
  unfolding extract
  extract-Quiet email match triaged arrived files =
      search (quiet_rules, try_extract-Quiet, keep_extraction-Quiet)

  pub match_items-Quiet :
      (id : Option Text) (items : List LineItem) → Quiet (match_items w h id items)
  unfolding match_items
  match_items-Quiet id [] = Quiet-pure tt
  match_items-Quiet id (i ∷ items) = Quiet-if _ _ _ (Quiet-pure tt) (
      Quiet-bind _ _ (Quiet-attempt _ (Quiet-ask _ _ refl))
        (λ tried. Quiet-option tried _ _ (Quiet-pure tt) (λ n. update_record-Quiet id _)))

  pub record_failure-Quiet : (arrived : List SourceFile) → Quiet (record_failure w h arrived)
  unfolding record_failure
  record_failure-Quiet arrived =
      Quiet-bind _ _ (Quiet-ask _ _ refl) (λ id. update_record-Quiet id _)
