-- ===== src/Storage/Steps/Updates.antt =====
-- `update`, as a step.
use rfq_workflow_agent.Base.{
  ℕ, ◌≡◌, refl, Bool, Option, none, some, List, Bool-cases, Option-cases, inl, inr,
}
use rfq_workflow_agent.Base.Text.{Text}
use rfq_workflow_agent.Documents.Models.{SourceFile, Bytes}
use rfq_workflow_agent.Storage.Records.{EmailRecord}
use rfq_workflow_agent.Storage.Names.{Files, save_files, save_form, taken_of}
use rfq_workflow_agent.Storage.Store.{
  Disk, Folder, Store, folder_at, write_record, announce, Changes, set_fields, save_attachments,
  save_its_form, finish_update, update,
}
use rfq_workflow_agent.Storage.Steps.{Keeps, Keeps-refl, Steps, stays, rewritten}

module _ {F : Type 0} where
  -- `update` changes no field that is kept.
  abbrev KeepsIn : EmailRecord F → Option (EmailRecord F) × Files → Type 0
  KeepsIn r (none, fs) = Unit
  KeepsIn r (some next, fs) = Keeps r next

  save_attachments-KeepsIn :
      (disk : Disk) (keep : Bool) (files : Option (List SourceFile)) (r base : EmailRecord F)
      (fs : Files)
      → Keeps r base
      → KeepsIn r (save_attachments disk keep files base fs)
  unfolding save_attachments
  save_attachments-KeepsIn disk keep none r base fs k = k
  save_attachments-KeepsIn disk keep (some files) r base fs k =
      elim (Option-cases (save_files keep disk.writes_file files fs).0) [
        | inl lost ↦ rw (save_attachments, lost) tt
        | inr (es, e) ↦
            rw (save_attachments, e)
              (record {
                same_id = k.same_id;
                same_reference = k.same_reference;
                same_verdict = k.same_verdict;
                same_approval = k.same_approval;
                same_inquiries = k.same_inquiries;
              })
      ]

  save_its_form-KeepsIn :
      (disk : Disk) (form : Option (Text × Bytes)) (r : EmailRecord F)
      (before : Option (EmailRecord F) × Files)
      → KeepsIn r before
      → KeepsIn r (save_its_form disk form before)
  unfolding save_its_form
  save_its_form-KeepsIn disk form r (none, fs) k = k
  save_its_form-KeepsIn disk none r (some base, fs) k = k
  save_its_form-KeepsIn disk (some (name, content)) r (some base, fs) k =
      elim (Option-cases
        (save_form disk.writes_file name content (taken_of base.attachments) fs).0) [
          | inl lost ↦ rw (save_its_form, lost) tt
          | inr (f, e) ↦
              rw (save_its_form, e)
                (record {
                  same_id = k.same_id;
                  same_reference = k.same_reference;
                  same_verdict = k.same_verdict;
                  same_approval = k.same_approval;
                  same_inquiries = k.same_inquiries;
                })
        ]

  finish_update-Steps :
      (disk : Disk) (now : ℕ) (id : Text) (f : Folder F) (r : EmailRecord F)
      (done : Option (EmailRecord F) × Files) (s : Store F)
      → folder_at id s.folders ≡ some f
      → f.email ≡ some r
      → KeepsIn r done
      → Steps disk s (finish_update disk now id f done s)
  unfolding finish_update write_record announce
  finish_update-Steps disk now id f r (none, fs) s at e k =
      rewritten id f (record f { files = fs }) r r at e e (Keeps-refl r)
  finish_update-Steps disk now id f r (some next, fs) s at e k =
      elim (Bool-cases disk.writes_record) [
        | inr lost ↦
            rw (finish_update, lost)
              (rewritten id f (record f { files = fs }) r r at e e (Keeps-refl r))
        | inl wrote ↦
            rw (finish_update, wrote)
              (rewritten id f
                (write_record (record next { updated_at = now }) (record f { files = fs })) r
                (record next { updated_at = now }) at e refl
                (record {
                  same_id = k.same_id;
                  same_reference = k.same_reference;
                  same_verdict = k.same_verdict;
                  same_approval = k.same_approval;
                  same_inquiries = k.same_inquiries;
                }))
      ]

  pub update-Steps :
      (disk : Disk) (now : ℕ) (id : Option Text) (c : Changes F) (s : Store F)
      → Steps disk s (update disk now id c s)
  unfolding update set_fields
  update-Steps disk now none c s = stays
  update-Steps disk now (some id) c s = elim (Bool-cases s.enabled) [
    | inr off ↦ rw (update, off) stays
    | inl on ↦ elim (Option-cases (folder_at id s.folders)) [
      | inl missing ↦ rw (update, on, missing) stays
      | inr (f, at) ↦ elim (Option-cases f.email) [
        | inl unread ↦ rw (update, on, at, unread) stays
        | inr (r, e) ↦
            let k : Keeps r (set_fields c r) = record {
              same_id = refl;
              same_reference = refl;
              same_verdict = refl;
              same_approval = λ a h. h;
              same_inquiries = λ h. refl;
            } in
            rw (update, on, at, e)
              (finish_update-Steps disk now id f r _ s at e (
                save_its_form-KeepsIn disk c.form r _
                  (save_attachments-KeepsIn disk s.keep c.files r (set_fields c r) f.files k)))
      ]
    ]
  ]
