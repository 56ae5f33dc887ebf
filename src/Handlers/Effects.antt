-- ===== src/Handlers/Effects.antt =====
-- What the mailbox handler exchanges with the rest of the service, and the monad that its methods
-- run in. A trace lists the outside calls that were made, the newest first, each with its answer
-- where the code depends on it. The outside world answers each call from the trace so far, and may
-- answer with an exception.
use rfq_workflow_agent.Base.{ℕ, Bool, Option, none, some, List, ◌∷◌}
use rfq_workflow_agent.Base.Text.{Text}
pub use rfq_workflow_agent.Documents.Models.{SourceFile, Bytes}
use rfq_workflow_agent.Domain.Enums.{DeliveryOutcome}
use rfq_workflow_agent.Domain.Models.{NormalizedEmail, ClassificationOutcome, Signals}

-- The parts of a Graph message that the handler reads (src/infrastructure/outlook/schemas.py).
pub record GraphAttachment : Type 0 where
  pub id : Option Text
  pub name : Option Text
  pub size : Option ℕ
  pub content_type : Option Text
  pub is_inline : Bool
  pub is_reference : Bool

pub record EmailMessage : Type 0 where
  pub id : Text
  pub categories : List Text
  pub attachments : List GraphAttachment

pub record LineItem : Type 0 where
  pub sr_no : ℕ
  pub description : Option Text
  pub customer_item_code : Option Text
  pub quantity : Option Text
  pub uom : Option Text
  pub source : Text

pub record ReadDocument : Type 0 where
  pub origin : Text
  pub role : Text
  pub what : Text
  pub items : List LineItem

-- What the record keeps of a reading; `_recorded_extraction` copies it from the journal's payload.
pub record RecordedExtraction : Type 0 where
  pub items : ℕ
  pub complete : Bool
  pub missing_required : List Text
  pub warnings : List Text
  pub header : List (Text × Text)

-- `delivery_port` is `header.value(HeaderField.DELIVERY_PORT)`.
pub record RfqExtraction : Type 0 where
  pub items : List LineItem
  pub delivery_port : Option Text
  pub payload : RecordedExtraction

pub record FilledWorkbook : Type 0 where
  pub content : Bytes
  pub filename : Text
  pub items : ℕ
  pub missing_required : List Text
  pub unread : List Text
  pub conflicts : List Text
  pub why_blank : List Text

pub record Delivery : Type 0 where
  pub outcome : DeliveryOutcome
  pub forwarded_to : Option Text
  pub cc : List Text
  pub region : Option Text
  pub region_rule : Option Text
  pub attached : Option Text

-- The arguments of `EmailRecords.update` that are given.
pub data Update : Type 0 where
  reading : RecordedExtraction → Update
  closing :
      (files : Option (List SourceFile)) (labels : List Text) (labelled : Bool)
      (delivery : Option Delivery) (form : Option (Text × Bytes))
      → Update
  failure : (files : Option (List SourceFile)) (labels : List Text) → Update
  matching : ℕ → Update

-- One outside call. `went`, `took` and `written` tell whether it returned.
pub data Effect : Type 0 where
  download : (message attachment : Text) → Effect
  read : List SourceFile → Effect
  classify : NormalizedEmail → Option (List ReadDocument) → Effect
  journal_decision : Effect
  open_record : (decision : Option Text) → Effect
  extract : List ReadDocument → Effect
  build : (branch keep_as : Option Text) → Effect
  journal_extraction : (decision : Option Text) → RecordedExtraction → Effect
  update : (record_id : Text) → Update → Effect
  forward :
      (message to : Text) (cc : List Text) (comment : Text) (attachment : Option (Text × Bytes))
      (went : Bool)
      → Effect
  set_categories : (message : Text) (names : List Text) (took : Bool) → Effect
  journal_delivery :
      (decision : Option Text) → Delivery → (labels : List Text) → (labelled : Bool) → Effect
  match_lines : List LineItem → Effect

abbrev pub Trace : Type 0
Trace = List Effect

-- The answers of the outside. An outer `none` is an exception. The records never raise: they guard
-- their own writes, and answer `none` where nothing is recorded.
pub record World (F : Type 0) : Type 0 where
  pub to_email : EmailMessage → NormalizedEmail
  pub needs_the_model : NormalizedEmail → Option Bool
  pub download : Trace → Text → Text → Option Bytes
  pub read : Trace → List SourceFile → Option (List ReadDocument)
  pub classify :
      Trace → NormalizedEmail → Option (List ReadDocument) → Option (ClassificationOutcome F)
  pub journal_decision : Trace → Option (Option Text)
  pub open_record : Trace → Option Text
  pub extract : Trace → NormalizedEmail → List ReadDocument → Signals → Option RfqExtraction
  pub build : Trace → RfqExtraction → Option Text → Option Text → Option FilledWorkbook
  pub written : Trace → Bool
  pub went : Trace → Bool
  pub took : Trace → Bool
  pub matched : Trace → List LineItem → Option ℕ

pub data Result (A : Type 0) : Type 0 where
  ok : A → Result A
  raised : Result A

-- A method: from the trace to its result and the longer trace.
abbrev pub M : Type 0 → Type 0
M A = Trace → Result A × Trace

module _ {A : Type 0} where
  unfoldable pub pure : A → M A
  pure a s = (ok a, s)

  unfoldable pub raise : M A
  raise s = (raised, s)

  -- An outside call, answered from the trace so far; it may raise.
  unfoldable pub ask : Effect → (Trace → Option A) → M A
  ask e answer s = elim (answer s) [ none ↦ (raised, e ∷ s) | some a ↦ (ok a, e ∷ s) ]

  -- `try: ... except Exception`: the exception becomes a value.
  unfoldable pub attempt : M A → M (Option A)
  attempt m s = let (r, t) = m s in (ok (elim r [ raised ↦ none | ok a ↦ some a ]), t)

module _ {A B : Type 0} where
  abbrev pub then_do : (A → M B) → Result A → M B
  then_do f (ok a) t = f a t
  then_do f raised t = (raised, t)

  infixl 5 ◌>>=◌ ◌>>◌
  -- Opening this opens the actions above too.
  unfoldable pub ◌>>=◌ : M A → (A → M B) → M B
  unfolding pure raise ask attempt
  ◌>>=◌ m f s = let (r, t) = m s in then_do f r t

  abbrev pub ◌>>◌ : M A → M B → M B
  m >> n = m >>= λ _. n

  -- A branch on an optional value.
  unfoldable pub on_option : Option A → M B → (A → M B) → M B
  on_option none n f = n
  on_option (some a) n f = f a
