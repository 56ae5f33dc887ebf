-- ===== src/Storage/Store.antt =====
-- `EmailRecords` of src/infrastructure/storage/records.py: the folder of all records, its counter of
-- RFQ numbers, and each operation on it. A record that cannot be parsed is one that is not there. The
-- clock, the time stamp of a name and a new `uuid4` are arguments; `Disk` tells which writes succeed.
use rfq_workflow_agent.Base.{
  ℕ, ◌+◌, ◌==◌, Bool, true, false, not, Option, none, some, List, [], ◌∷◌, map, if◌then◌else◌,
  is_some, or_else,
}
use rfq_workflow_agent.Base.Text.{Text, txt, text_eq}
use rfq_workflow_agent.Documents.Models.{SourceFile, Bytes}
use rfq_workflow_agent.Handlers.Effects.{RecordedExtraction, Delivery}
use rfq_workflow_agent.Storage.Records.{
  RecordedMatch, RecordedInquiry, RecordedApproval, EmailRecord,
}
use rfq_workflow_agent.Storage.Names.{Files, without_file, save_files, save_form, taken_of}

-- What becomes of the reads and writes of one call. `keeps_counter` tells whether a counter that
-- could not be written can still be read: `write_text` empties the file first.
pub record Disk : Type 0 where
  pub makes_folder : Bool
  pub reads_counter : Bool
  pub writes_counter : Bool
  pub keeps_counter : Bool
  pub writes_body : Bool
  pub writes_record : Bool
  pub writes_file : Text → Bool

-- The folder of one email: `email.json`, `body.txt`, and the files of the customer and the form.
pub record Folder (F : Type 0) : Type 0 where
  pub email : Option (EmailRecord F)
  pub body : Option Text
  pub files : Files

-- `counter` is the number in `.rfq-counter.json`, if it can be read; `announced` counts the changes
-- announced. `enabled` and `keep` are settings.
pub record Store (F : Type 0) : Type 0 where
  pub enabled : Bool
  pub keep : Bool
  pub folders : List (Text × Folder F)
  pub counter : Option ℕ
  pub announced : ℕ

-- `_read`, `_address`, `_is_rfq` and the writing of a record.
module _ {F : Type 0} where
  unfoldable pub folder_at : Text → List (Text × Folder F) → Option (Folder F)
  folder_at id [] = none
  folder_at id ((n, f) ∷ rest) =
      let later = folder_at id rest in if text_eq id n then some f else later

  unfoldable pub put_folder : Text → Folder F → List (Text × Folder F) → List (Text × Folder F)
  put_folder id f [] = []
  put_folder id f ((n, g) ∷ rest) =
      let later = put_folder id f rest in if text_eq id n then (n, f) ∷ rest else (n, g) ∷ later

  abbrev pub email_in : Option (Folder F) → Option (EmailRecord F)
  email_in none = none
  email_in (some f) = f.email

  -- `_read(self._root / record_id / RECORD)`
  unfoldable pub record_at : Text → List (Text × Folder F) → Option (EmailRecord F)
  unfolding folder_at
  record_at id folders = email_in (folder_at id folders)

  -- `_write`: the record goes through `email.json.tmp`, so that no file of that name is left.
  unfoldable pub write_record : EmailRecord F → Folder F → Folder F
  write_record r f = record f {
    email = some r;
    files = without_file (txt "email.json.tmp") f.files;
  }

  unfoldable pub announce : Store F → Store F
  announce s = record s { announced = s.announced + 1 }

  -- The folder and the changed record, where there is a record and it may be changed.
  unfoldable pub changed_at :
      Text
      → (EmailRecord F → Option (EmailRecord F))
      → List (Text × Folder F)
      → Option (Folder F × EmailRecord F)
  changed_at id change folders = elim (folder_at id folders) [
    | none ↦ none
    | some f ↦ elim (f.email) [
      | none ↦ none
      | some r ↦ elim (change r) [ none ↦ none | some next ↦ some (f, next) ]
    ]
  ]

  unfoldable pub write_changed :
      Disk → ℕ → Text → Option (Folder F × EmailRecord F) → Store F → Bool × Store F
  unfolding write_record announce
  write_changed disk now id none s = (false, s)
  write_changed disk now id (some (f, changed)) s =
      if disk.writes_record
      then (
        true,
        announce (record s {
          folders = put_folder id (write_record (record changed { updated_at = now }) f) s.folders;
        }),
      )
      else (false, s)

  -- The frame that `inquire`, `approve` and `_set` share: the record is read, changed where that is
  -- allowed, and written; the answer is whether it was.
  unfoldable pub edit :
      Disk → ℕ → Text → (EmailRecord F → Option (EmailRecord F)) → Store F → Bool × Store F
  unfolding write_changed
  edit disk now id change s =
      if not s.enabled
      then (false, s)
      else write_changed disk now id (changed_at id change s.folders) s

  -- The first line with an index, changed; `none` where no line has it.
  unfoldable pub change_line :
      ℕ
      → (RecordedMatch F → RecordedMatch F)
      → List (RecordedMatch F)
      → Option (List (RecordedMatch F))
  change_line index change [] = none
  change_line index change (m ∷ ms) =
      let later = change_line index change ms in
      if m.index == index
      then some (change m ∷ ms)
      else elim later [ none ↦ none | some rest ↦ some (m ∷ rest) ]

  -- `_set`
  unfoldable pub set_line :
      Disk → ℕ → Text → ℕ → (RecordedMatch F → RecordedMatch F) → Store F → Bool × Store F
  set_line disk now id index change s =
      edit disk now id
        (λ r. elim (change_line index change r.matching) [
          | none ↦ none
          | some ms ↦ some (record r { matching = ms })
        ])
        s

  -- `confirm`
  unfoldable pub confirm : Disk → ℕ → Text → ℕ → Option Text → Store F → Bool × Store F
  confirm disk now id index code s =
      set_line disk now id index (λ m. record m { confirmed_item_code = code }) s

  -- `price`
  unfoldable pub price : Disk → ℕ → Text → ℕ → Option F → Store F → Bool × Store F
  price disk now id index unit_price s =
      set_line disk now id index
        (λ m. record m {
          offer_unit_price = unit_price;
          offer_received_at = if is_some unit_price then some now else none;
        })
        s

  abbrev pub has_inquiries : EmailRecord F → Bool
  has_inquiries r = elim (r.inquiries) [ [] ↦ false | _ ∷ _ ↦ true ]

  -- `inquire`
  unfoldable pub inquire : Disk → ℕ → Text → List RecordedInquiry → Store F → Bool × Store F
  inquire disk now id inquiries s =
      edit disk now id
        (λ r. if has_inquiries r then none else some (record r { inquiries = inquiries })) s

  -- `prices[line.index]`, if it is there.
  unfoldable pub price_for : ℕ → List (ℕ × F) → Option F
  price_for index [] = none
  price_for index ((i, p) ∷ rest) =
      let later = price_for index rest in if index == i then some p else later

  unfoldable pub approve_line : List (ℕ × F) → RecordedMatch F → RecordedMatch F
  approve_line prices m = elim (price_for m.index prices) [
    | none ↦ m
    | some p ↦ record m { approved_unit_price = some p }
  ]

  -- `approve`
  unfoldable pub approve :
      Disk → ℕ → Text → RecordedApproval F → List (ℕ × F) → Store F → Bool × Store F
  approve disk now id approval prices s =
      edit disk now id
        (λ r.
          if is_some r.approval
          then none
          else some (record r {
            matching = map (approve_line prices) r.matching;
            approval = some approval;
          }))
        s

-- The arguments of `update`; `none` leaves what the record says.
pub record Changes (F : Type 0) : Type 0 where
  pub files : Option (List SourceFile)
  pub labels : Option (List Text)
  pub labelled : Option Bool
  pub extraction : Option RecordedExtraction
  pub matching : Option (List (RecordedMatch F))
  pub delivery : Option Delivery
  pub form : Option (Text × Bytes)
  pub error : Option Text

module _ {F : Type 0} where
  -- The fields that `update` sets without touching the disk.
  unfoldable pub set_fields : Changes F → EmailRecord F → EmailRecord F
  set_fields c r = record r {
    labels = elim (c.labels) [ none ↦ r.labels | some l ↦ l ];
    labelled = or_else c.labelled r.labelled;
    extraction = or_else c.extraction r.extraction;
    matching = elim (c.matching) [ none ↦ r.matching | some m ↦ m ];
    delivery = or_else c.delivery r.delivery;
    error = or_else c.error r.error;
  }

  -- `record.attachments = self._save_files(...)`, if files are given; `none` where a write raises.
  unfoldable pub save_attachments :
      Disk
      → Bool
      → Option (List SourceFile)
      → EmailRecord F
      → Files
      → Option (EmailRecord F) × Files
  save_attachments disk keep none r fs = (some r, fs)
  save_attachments disk keep (some files) r fs =
      let (saved, after) = save_files keep disk.writes_file files fs in
      (elim saved [ none ↦ none | some es ↦ some (record r { attachments = es }) ], after)

  -- `record.form = self._save_form(...)`, if a form is given.
  unfoldable pub save_its_form :
      Disk → Option (Text × Bytes) → Option (EmailRecord F) × Files → Option (EmailRecord F) × Files
  save_its_form disk form (none, fs) = (none, fs)
  save_its_form disk none (some r, fs) = (some r, fs)
  save_its_form disk (some (name, content)) (some r, fs) =
      let (saved, after) = save_form disk.writes_file name content (taken_of r.attachments) fs in
      (elim saved [ none ↦ none | some f ↦ some (record r { form = some f }) ], after)

  -- The end of `update`: the files are on the disk in any case, the record only where all went well.
  unfoldable pub finish_update :
      Disk → ℕ → Text → Folder F → Option (EmailRecord F) × Files → Store F → Store F
  unfolding write_record announce
  finish_update disk now id f (none, fs) s = record s {
    folders = put_folder id (record f { files = fs }) s.folders;
  }
  finish_update disk now id f (some r, fs) s =
      if disk.writes_record
      then announce (record s {
        folders =
            put_folder id (write_record (record r { updated_at = now }) (record f { files = fs }))
              s.folders;
      })
      else record s { folders = put_folder id (record f { files = fs }) s.folders }

  -- `update`
  unfoldable pub update : Disk → ℕ → Option Text → Changes F → Store F → Store F
  unfolding finish_update
  update disk now none c s = s
  update disk now (some id) c s = if not s.enabled then s else elim (folder_at id s.folders) [
    | none ↦ s
    | some f ↦ elim (f.email) [
      | none ↦ s
      | some r ↦
          finish_update disk now id f
            (save_its_form disk c.form
              (save_attachments disk s.keep c.files (set_fields c r) f.files))
            s
    ]
  ]
