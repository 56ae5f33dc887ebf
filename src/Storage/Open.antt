-- ===== src/Storage/Open.antt =====
-- `EmailRecords.open` of src/infrastructure/storage/records.py, its helpers, and the reading of
-- records. `stamp` is `strftime` of a moment, `fresh` a new `uuid4`; both are arguments.
use rfq_workflow_agent.Base.{
  ℕ, zero, suc, ◌+◌, ◌-◌, ◌==◌, Bool, true, false, not, ◌&&◌, Option, none, some, List, [], ◌∷◌,
  ◌++◌, map, if◌then◌else◌, length, take,
}
use rfq_workflow_agent.Base.Text.{Text, txt, text_eq, non_empty, member}
use rfq_workflow_agent.Base.Digits.{show}
use rfq_workflow_agent.Base.Fresh.{first_free}
use rfq_workflow_agent.Domain.Models.{
  EmailAddress, Attachment, NormalizedEmail, ClassificationOutcome,
}
use rfq_workflow_agent.Storage.Records.{RecordedAddress, RecordedFile, RecordedVerdict, EmailRecord}
use rfq_workflow_agent.Storage.Names.{safe_name}
use rfq_workflow_agent.Storage.Store.{
  Disk, Folder, Store, folder_at, email_in, write_record, announce,
}

-- `_address`
unfoldable pub recorded_address : EmailAddress → RecordedAddress
recorded_address a = record { name = a.name; address = a.address }

unfoldable pub recorded_sender : Option EmailAddress → Option RecordedAddress
recorded_sender none = none
recorded_sender (some a) = some (recorded_address a)

-- The entry of an attachment whose bytes are not there yet.
unfoldable pub noted_file : Text → Attachment → RecordedFile
noted_file note a = record {
  filename = a.filename;
  content_type = a.content_type;
  size_bytes = elim (a.size_bytes) [ none ↦ 0 | some n ↦ n ];
  saved_as = none;
  note = some note;
}

-- `email.received_at or now`
abbrev pub or_now : Option ℕ → ℕ → ℕ
or_now none now = now
or_now (some moment) now = moment

-- `_record_id`
unfoldable pub before_dash : Text → Text
before_dash [] = []
before_dash (c ∷ s) = let rest = before_dash s in if c == b'-' then [] else c ∷ rest

unfoldable pub record_id : (stamp : ℕ → Text) (fresh : Text) → ℕ → Option Text → Text
record_id stamp fresh moment none = stamp moment ++ (txt "__" ++ take 8 (before_dash fresh))
record_id stamp fresh moment (some d) =
    stamp moment ++ (txt "__" ++ take 8 (before_dash (if non_empty d then d else fresh)))

-- `REFERENCE.format(number=number)`
unfoldable pub zeros : ℕ → Text
zeros zero = []
zeros (suc n) = b'0' ∷ zeros n

unfoldable pub reference : ℕ → Text
reference number = txt "RFQ-" ++ (zeros (4 - length (show number)) ++ show number)

-- `counter.get(ISSUED, 0)`
abbrev pub issued : Option ℕ → ℕ
issued none = 0
issued (some n) = n

-- The counter as `_take_number` reads it: one that cannot be read is one that is not there.
unfoldable pub counter_read : Disk → Option ℕ → Option ℕ
counter_read disk counter = if disk.reads_counter then counter else none

-- `_take_number`, for an RFQ: the counter is written before the number is used. The answer is the
-- reference, or `none` where the counter cannot be written, and the counter that is left.
unfoldable pub take_number : Disk → Bool → Option ℕ → Option (Option Text) × Option ℕ
unfolding counter_read
take_number disk false counter = (some none, counter)
take_number disk true counter =
    let number = issued (counter_read disk counter) + 1 in
    if disk.writes_counter
    then (some (some (reference number)), some number)
    else (none, if disk.keeps_counter then counter else none)

-- The place of a new folder: the name itself, or the name with the first free number from 2 on.
unfoldable pub taken_names : {F : Type 0} → List (Text × Folder F) → List Text
taken_names [] = []
taken_names ((n, _) ∷ rest) = n ∷ taken_names rest

unfoldable pub dashed : Text → ℕ → Text
dashed wanted i = wanted ++ (txt "-" ++ show i)

-- `_make_folder`
unfoldable pub make_folder : Text → List Text → Text
make_folder wanted taken =
    if member wanted taken
    then elim (first_free (suc (length taken)) (dashed wanted) taken 2) [
      | none ↦ wanted
      | some k ↦ dashed wanted k
    ]
    else wanted

module _ {F : Type 0} where
  -- `_verdict`
  unfoldable pub recorded_verdict : Option (ClassificationOutcome F) → Option (RecordedVerdict F)
  recorded_verdict none = none
  recorded_verdict (some o) = some (record {
    category = o.result.category;
    is_rfq = o.result.is_rfq;
    requires_action = o.result.requires_action;
    recommended_action = o.result.recommended_action;
    direction = o.result.direction;
    priority = o.result.priority;
    confidence = o.result.confidence;
    needs_human_review = o.result.needs_human_review;
    decision_path = o.result.decision_path;
    reasoning = o.result.reasoning;
    evidence = o.result.evidence;
    rule_hits = o.result.rule_hits;
    model = o.model;
  })

  -- `_is_rfq`
  unfoldable pub is_rfq : Option (ClassificationOutcome F) → Bool
  is_rfq none = false
  is_rfq (some o) = o.result.is_rfq

  -- The record of a new email, with its id and its reference.
  unfoldable pub new_record :
      NormalizedEmail
      → Option (ClassificationOutcome F)
      → Option Text
      → (source note : Text) (now : ℕ) → Text
      → Option Text
      → EmailRecord F
  new_record email outcome decision_id source note now id number = record {
    id = id;
    rfq_reference = number;
    decision_id = decision_id;
    message_id = email.message_id;
    source = source;
    received_at = email.received_at;
    recorded_at = now;
    updated_at = now;
    mailbox = email.mailbox;
    sender = recorded_sender email.sender;
    to = map recorded_address email.to;
    cc = map recorded_address email.cc;
    subject = email.subject;
    body_chars = length email.body_text;
    body_file = if non_empty email.body_text then some (txt "body.txt") else none;
    attachments = map (noted_file note) email.attachments;
    labels = [];
    labelled = none;
    verdict = recorded_verdict outcome;
    extraction = none;
    matching = [];
    inquiries = [];
    approval = none;
    delivery = none;
    form = none;
    error = none;
  }

  abbrev pub empty_folder : Folder F
  empty_folder = record { email = none; body = none; files = [] }

  -- `mkdir`: one more folder, behind the others.
  unfoldable pub add_folder : Text → Folder F → Option ℕ → Store F → Store F
  add_folder id f counter s = record s { folders = s.folders ++ (id, f) ∷ []; counter = counter }

  -- The end of `open`, with the reference: the body, and the record.
  unfoldable pub write_new :
      Disk → NormalizedEmail → EmailRecord F → Option ℕ → Store F → Option Text × Store F
  unfolding write_record announce add_folder
  write_new disk email r counter s =
      if non_empty email.body_text && not disk.writes_body
      then (none, add_folder r.id empty_folder counter s)
      else let kept : Folder F = record {
        email = none;
        body = if non_empty email.body_text then some email.body_text else none;
        files = [];
      } in
        if disk.writes_record
        then (some r.id, announce (add_folder r.id (write_record r kept) counter s))
        else (none, add_folder r.id kept counter s)

  unfoldable pub open_numbered :
      Disk
      → NormalizedEmail
      → (Option Text → EmailRecord F)
      → Text
      → Option (Option Text) × Option ℕ
      → Store F
      → Option Text × Store F
  unfolding write_new
  open_numbered disk email make id (none, counter) s = (none, add_folder id empty_folder counter s)
  open_numbered disk email make id (some number, counter) s =
      write_new disk email (make number) counter s

  -- `open`: the id of the new record, where it was written.
  unfoldable pub open_record :
      Disk
      → (stamp : ℕ → Text) (fresh : Text) (now : ℕ) → NormalizedEmail
      → Option (ClassificationOutcome F)
      → Option Text
      → (source note : Text) → Store F
      → Option Text × Store F
  unfolding open_numbered
  open_record disk stamp fresh now email outcome decision_id source note s =
      let id : Text =
        make_folder (record_id stamp fresh (or_now email.received_at now) decision_id)
          (taken_names s.folders) in
      if not s.enabled
      then (none, s)
      else if not disk.makes_folder
      then (none, s)
      else open_numbered disk email (new_record email outcome decision_id source note now id) id
          (take_number disk (is_rfq outcome) s.counter) s

  -- `_folder`
  unfoldable pub folder_of : Text → Store F → Option (Folder F)
  folder_of id s =
      if non_empty id && text_eq id (safe_name id) then folder_at id s.folders else none

  -- `read`
  unfoldable pub read : Text → Store F → Option (EmailRecord F)
  unfolding folder_of
  read id s = email_in (folder_of id s)
