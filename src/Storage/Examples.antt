-- ===== src/Storage/Examples.antt =====
-- The records at a concrete folder.
use rfq_workflow_agent.Base.{
  ℕ, ◌≡◌, refl, true, false, Option, none, some, List, [], ◌∷◌, map, arith,
}
use rfq_workflow_agent.Base.Text.{Text, member, txt, lower, strip}
use rfq_workflow_agent.Base.Digits.{show}
use rfq_workflow_agent.Base.Fresh.{first_free}
use rfq_workflow_agent.Documents.Models.{SourceFile}
use rfq_workflow_agent.Handlers.Examples.{email, outcome}
use rfq_workflow_agent.Storage.Records.{
  RecordedFile, RecordedInquiry, RecordedApproval, EmailRecord,
}
use rfq_workflow_agent.Storage.Names.{
  reserved, safe_name, unique, save_files, without_file, save_from, not_kept, cons_entry,
}
use rfq_workflow_agent.Storage.Names.Apart.{unique-free}
use rfq_workflow_agent.Storage.Names.Stored.{Saved, save_files-Saved}
use rfq_workflow_agent.Storage.Store.{
  Disk, Folder, Store, record_at, approve, inquire, Changes, update, folder_at, put_folder,
  save_its_form, save_attachments, edit, changed_at, write_changed, write_record, announce,
}
use rfq_workflow_agent.Storage.Open.{
  open_record, reference, counter_read, take_number, is_rfq, new_record, make_folder, taken_names,
  dashed, record_id, before_dash, zeros, write_new, open_numbered, add_folder,
}
use rfq_workflow_agent.Storage.Steps.{Keeps, Steps}
use rfq_workflow_agent.Storage.Kept.{
  Request, step_request, run_requests, step_request-Steps, run_requests-Keeps,
}
use rfq_workflow_agent.Storage.Numbers.{references, IsCounted, run_requests-IsCounted}
use rfq_workflow_agent.Storage.Frozen.{approve-once}

abbrev works : Disk
works = record {
  makes_folder = true;
  reads_counter = true;
  writes_counter = true;
  keeps_counter = true;
  writes_body = true;
  writes_record = true;
  writes_file = λ _. true;
}

-- A disk that takes no record.
abbrev full : Disk
full = record works { writes_record = false }

abbrev at_noon : ℕ → Text
at_noon _ = txt "2026-09-10T12-00-00Z"

abbrev empty_store : Store ℕ
empty_store = record { enabled = true; keep = true; folders = []; counter = none; announced = 0 }

abbrev first_request : Request ℕ
first_request =
    Request.opening (txt "0f0e") email (some outcome) (some (txt "a1b2c3d4-0001")) (txt "outlook")
      (txt "note")

abbrev map_reference : Option (EmailRecord ℕ) → Option Text
map_reference none = none
map_reference (some r) = r.rfq_reference

abbrev the_id : Text
the_id = txt "2026-09-10T12-00-00Z__a1b2c3d4"

abbrev one_record : Store ℕ
one_record = step_request at_noon works 7 first_request empty_store

-- The record of the first RFQ is there, under its id and with the first reference.
opened : map_reference (record_at the_id one_record.folders) ≡ some (txt "RFQ-0001")
unfolding record_at step_request open_record take_number counter_read is_rfq new_record make_folder
    taken_names record_id before_dash reference zeros show folder_at write_new open_numbered
    add_folder write_record announce without_file
opened = refl

-- An attachment may not take the name of the record, nor that of another file.
abbrev an_attachment : Text → SourceFile
an_attachment name = record {
  filename = name;
  content_type = none;
  content = some (80 ∷ []);
  size_bytes = 1;
  is_inline = false;
  is_reference = false;
}

abbrev attachments : List SourceFile
attachments =
    an_attachment (txt "Email.json")
    ∷ an_attachment (txt "a/list.xlsx")
    ∷ an_attachment (txt "List.xlsx")
    ∷ []

unique-free_example :
    (member (lower (unique (txt "List.xlsx") (txt "list.xlsx" ∷ [])).0) (txt "list.xlsx" ∷ [])
      ≡ false)
    × ((unique (txt "List.xlsx") (txt "list.xlsx" ∷ [])).1
        ≡ lower (unique (txt "List.xlsx") (txt "list.xlsx" ∷ [])).0 ∷ txt "list.xlsx" ∷ [])
unique-free_example = unique-free (txt "List.xlsx") (txt "list.xlsx" ∷ [])

save_files-Saved_example :
    Saved true (λ _. true) attachments reserved (save_files true (λ _. true) attachments [])
save_files-Saved_example = save_files-Saved true (λ _. true) attachments []

abbrev sign_off : RecordedApproval ℕ
sign_off = record { approved_at = 9; margin_stock = 10; margin_jit = 20 }

abbrev other_sign_off : RecordedApproval ℕ
other_sign_off = record { approved_at = 11; margin_stock = 0; margin_jit = 0 }

abbrev letter : RecordedInquiry
letter = record { supplier = txt "ACME"; body = txt "Please quote"; sent_at = 8; lines = 0 ∷ [] }

-- More calls, after which the number of the record that could not be written is used up: a second email with the same decision, on a disk that works and on one that is full.
abbrev more : List (Disk × ℕ × Request ℕ)
more =
    (works, 10, first_request)
    ∷ (full, 11, first_request)
    ∷ (works, 12, Request.inquiring the_id (letter ∷ []))
    ∷ (works, 13, Request.approving the_id other_sign_off [])
    ∷ []

three_names :
    (references (run_requests at_noon more one_record).folders
      ≡ txt "RFQ-0001" ∷ txt "RFQ-0002" ∷ [])
    × ((run_requests at_noon more one_record).counter ≡ some 3)
unfolding record_at step_request open_record take_number counter_read is_rfq new_record make_folder
    taken_names record_id before_dash reference zeros show folder_at write_new open_numbered
    add_folder write_record announce without_file dashed first_free references run_requests approve
    edit inquire changed_at put_folder
three_names = (refl, refl)

-- A disk on which the counter can neither be written nor read afterwards.
abbrev worn : Disk
worn = record works { writes_counter = false; keeps_counter = false }

-- The call on it writes no record, and the next call starts the numbers again: one reference twice.
same_name :
    references
      (run_requests at_noon
        ((worn, 10, first_request) ∷ (works, 11, first_request) ∷ [])
        one_record).folders
    ≡ txt "RFQ-0001" ∷ txt "RFQ-0001" ∷ []
unfolding record_at step_request open_record take_number counter_read is_rfq new_record make_folder
    taken_names record_id before_dash reference zeros show folder_at write_new open_numbered
    add_folder write_record announce without_file dashed first_free references run_requests
same_name = refl

one_record-IsCounted : IsCounted one_record.folders one_record.counter
unfolding record_at step_request open_record take_number counter_read is_rfq new_record make_folder
    taken_names record_id before_dash reference zeros show folder_at write_new open_numbered
    add_folder write_record announce without_file references
one_record-IsCounted = (refl, ((1, omega arith, refl), tt))

run_requests-IsCounted_example :
    IsCounted
      (run_requests at_noon more one_record).folders
      (run_requests at_noon more one_record).counter
run_requests-IsCounted_example =
    run_requests-IsCounted at_noon more one_record (refl, (refl, (refl, (refl, tt))))
      one_record-IsCounted

step_request-Steps_example :
    Steps full one_record (step_request at_noon full 10 first_request one_record)
step_request-Steps_example = step_request-Steps at_noon full 10 first_request one_record

one_record-there : (r : EmailRecord ℕ) × (record_at the_id one_record.folders ≡ some r)
unfolding record_at step_request open_record take_number counter_read is_rfq new_record make_folder
    taken_names record_id before_dash reference zeros show folder_at write_new open_numbered
    add_folder write_record announce without_file
one_record-there = (_, refl)

run_requests-Keeps_example :
    (next : EmailRecord ℕ) × (record_at the_id (run_requests at_noon more one_record).folders
      ≡ some next)
    × Keeps one_record-there.0 next
run_requests-Keeps_example =
    run_requests-Keeps at_noon more one_record the_id one_record-there.0 one_record-there.1

approve-once_example :
    let after = run_requests at_noon more (approve works 9 the_id sign_off [] one_record).1 in
    (approve works 20 the_id other_sign_off [] after ≡ (false, after))
    × (r : EmailRecord ℕ) × (record_at the_id after.folders ≡ some r)
    × (r.approval ≡ some sign_off)
unfolding record_at step_request open_record take_number counter_read is_rfq new_record make_folder
    taken_names record_id before_dash reference zeros show folder_at write_new open_numbered
    add_folder write_record announce without_file approve edit changed_at write_changed
approve-once_example =
    approve-once at_noon works works 9 20 the_id sign_off other_sign_off [] [] more one_record refl

-- The name through which a record is written is not reserved: the file is saved under it, and is gone
-- when the record is written.
abbrev unlucky : Changes ℕ
unlucky = record {
  files = some (an_attachment (txt "email.json.tmp") ∷ []);
  labels = none;
  labelled = none;
  extraction = none;
  matching = none;
  delivery = none;
  form = none;
  error = none;
}

abbrev files_at : Option (Folder ℕ) → List (Option Text) × List Text
files_at none = ([], [])
files_at (some f) = elim (f.email) [
  | none ↦ ([], map (λ x. x.0) f.files)
  | some r ↦ (map (λ (e : RecordedFile). e.saved_as) r.attachments, map (λ x. x.0) f.files)
]

unlucky_lost :
    files_at (folder_at the_id (update works 9 (some the_id) unlucky one_record).folders)
    ≡ (some (txt "email.json.tmp") ∷ [], [])
unfolding record_at step_request open_record take_number counter_read is_rfq new_record make_folder
    taken_names record_id before_dash reference zeros show folder_at write_new open_numbered
    add_folder write_record announce without_file dashed first_free references run_requests approve
    edit inquire changed_at put_folder update save_its_form save_attachments save_files save_from
    not_kept cons_entry unique lower safe_name strip
unlucky_lost = refl
