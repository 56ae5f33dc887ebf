-- ===== src/Storage/Steps.antt =====
-- What an operation of the records may do to the folders and the counter.
pub mod Edits
pub mod Updates
pub mod Opens
use rfq_workflow_agent.Base.{
  ℕ, zero, suc, ◌+◌, ◌≤◌, ◌≡◌, ◌⊎◌, refl, sym, ap, ◌∙◌, Bool, true, false, not, ◌&&◌, ◌||◌, Option,
  none, some, List, [], ◌∷◌, ◌++◌, map, if◌then◌else◌, length, drop, arith, is_some, or_else,
  Bool-cases, Option-cases, inl, inr,
}
use rfq_workflow_agent.Base.Text.{Text, txt, text_eq, non_empty, member, text_eq_refl, text_eq_iff}
use rfq_workflow_agent.Base.Digits.{show, number_from, number_from-show_end}
use rfq_workflow_agent.Base.Fresh.{first_free, first_free_sound, first_free_found, IsDistinct}
use rfq_workflow_agent.Domain.Models.{NormalizedEmail, ClassificationOutcome}
use rfq_workflow_agent.Documents.Models.{SourceFile, Bytes}
use rfq_workflow_agent.Storage.Records.{
  RecordedMatch, RecordedInquiry, RecordedApproval, EmailRecord,
}
use rfq_workflow_agent.Storage.Names.{Files, save_files, save_form, taken_of}
use rfq_workflow_agent.Storage.Names.Apart.{drop-append}
use rfq_workflow_agent.Storage.Store.{
  Disk, Folder, Store, folder_at, put_folder, write_record, announce, edit, change_line, set_line,
  confirm, price, inquire, has_inquiries, approve, approve_line, Changes, set_fields,
  save_attachments, save_its_form, finish_update, update,
}
use rfq_workflow_agent.Storage.Open.{
  issued, reference, taken_names, dashed, make_folder, take_number, is_rfq, new_record,
  empty_folder, add_folder, write_new, open_numbered, open_record, record_id, or_now,
}

-- What stays of a record when it is written again.
pub record Keeps {F : Type 0} (r next : EmailRecord F) : Type 0 where
  pub same_id : next.id ≡ r.id
  pub same_reference : next.rfq_reference ≡ r.rfq_reference
  pub same_verdict : next.verdict ≡ r.verdict
  pub same_approval : (a : RecordedApproval F) → r.approval ≡ some a → next.approval ≡ some a
  pub same_inquiries : has_inquiries r ≡ true → next.inquiries ≡ r.inquiries

-- The counter survives the call: it is read where it is there, and written or left alone.
abbrev pub spares_counter : Disk → Bool
spares_counter disk = disk.reads_counter && (disk.writes_counter || disk.keeps_counter)

-- The reference of a new record is that of the number counted last, which is the next one where the
-- counter is spared; without a reference, a spared counter does not go back.
abbrev pub IsNumbered : (spared : Bool) → Option ℕ → Option Text → Option ℕ → Type 0
IsNumbered spared before none after = spared ≡ true → issued before ≤ issued after
IsNumbered spared before (some number) after =
    (number ≡ reference (issued after)) × (spared ≡ true → issued after ≡ issued before + 1)

abbrev pub IsNew :
    {F : Type 0} → (spared : Bool) → Text → Option ℕ → Option (EmailRecord F) → Option ℕ → Type 0
IsNew spared id before none after = spared ≡ true → issued before ≤ issued after
IsNew spared id before (some r) after = (r.id ≡ id) × IsNumbered spared before r.rfq_reference after

-- The steps of the folders and the counter: nothing, a record written again, a folder under a new name.
pub data IsStep {F : Type 0} (spared : Bool)
    : List (Text × Folder F) → Option ℕ → List (Text × Folder F) → Option ℕ → Type 0 where
  stays : {fs : List (Text × Folder F)} {c : Option ℕ} → IsStep spared fs c fs c
  rewritten :
      {fs : List (Text × Folder F)} {c : Option ℕ} (id : Text) (f g : Folder F)
      (r next : EmailRecord F)
      → folder_at id fs ≡ some f
      → f.email ≡ some r
      → g.email ≡ some next
      → Keeps r next
      → IsStep spared fs c (put_folder id g fs) c
  added :
      {fs : List (Text × Folder F)} {c after : Option ℕ} (id : Text) (g : Folder F)
      → member id (taken_names fs) ≡ false
      → IsNew spared id c g.email after
      → IsStep spared fs c (fs ++ (id, g) ∷ []) after

module _ {F : Type 0} where
  pub Keeps-refl : (r : EmailRecord F) → Keeps r r
  Keeps-refl r = record {
    same_id = refl;
    same_reference = refl;
    same_verdict = refl;
    same_approval = λ a e. e;
    same_inquiries = λ h. refl;
  }

  -- A step that leaves a store's folders and counter related.
  abbrev pub Steps : Disk → Store F → Store F → Type 0
  Steps disk s t = IsStep (spares_counter disk) s.folders s.counter t.folders t.counter
