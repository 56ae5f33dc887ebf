-- ===== src/Storage/Steps/Edits.antt =====
-- `confirm`, `price`, `inquire` and `approve`, as steps.
use rfq_workflow_agent.Base.{
  ℕ, ◌≡◌, refl, sym, ap, ◌∙◌, Bool, true, false, not, Option, none, some, List, map, is_some,
  Bool-cases, if_cases, Option-cases, inl, inr,
}
use rfq_workflow_agent.Base.Text.{Text}
use rfq_workflow_agent.Storage.Records.{
  RecordedMatch, RecordedInquiry, RecordedApproval, EmailRecord,
}
use rfq_workflow_agent.Storage.Store.{
  Disk, Folder, Store, folder_at, write_record, announce, changed_at, write_changed, edit,
  change_line, set_line, inquire, has_inquiries, approve, approve_line,
}
use rfq_workflow_agent.Storage.Steps.{Keeps, Steps, stays, rewritten}

module _ {F : Type 0} where
  pub changed_at-some :
      (id : Text) (change : EmailRecord F → Option (EmailRecord F)) (fs : List (Text × Folder F))
      (f : Folder F) (next : EmailRecord F)
      → changed_at id change fs ≡ some (f, next)
      → (r : EmailRecord F) × (folder_at id fs ≡ some f)
        × (f.email ≡ some r)
        × (change r ≡ some next)
  unfolding changed_at
  changed_at-some id change fs f next h = elim (Option-cases (folder_at id fs)) [
    | inl missing ↦ (let n : none ≡ some (f, next) = rw (changed_at, missing) at h in cc)
    | inr (g, at) ↦ elim (Option-cases g.email) [
      | inl unread ↦ (let n : none ≡ some (f, next) = rw (changed_at, at, unread) at h in cc)
      | inr (r, e) ↦ elim (Option-cases (change r)) [
        | inl refused ↦ (let n : none ≡ some (f, next) = rw (changed_at, at, e, refused) at h in cc)
        | inr (changed, c) ↦
            let is : some (g, changed) ≡ some (f, next) = rw (changed_at, at, e, c) at h in
            let same : g ≡ f = cc in
            let also : changed ≡ next = cc in
            (r, at ∙ ap some same, ap (λ x. x.email) (sym same) ∙ e, c ∙ ap some also)
      ]
    ]
  ]

  -- What `edit` does, where the change keeps what is to be kept.
  write_changed-Steps :
      (disk : Disk) (now : ℕ) (id : Text) (change : EmailRecord F → Option (EmailRecord F))
      (s : Store F) (found : Option (Folder F × EmailRecord F))
      → changed_at id change s.folders ≡ found
      → ((r next : EmailRecord F)
          → change r ≡ some next
          → Keeps r (record next { updated_at = now }))
      → Steps disk s (write_changed disk now id found s).1
  unfolding write_changed write_record announce
  write_changed-Steps disk now id change s none e keeps = stays
  write_changed-Steps disk now id change s (some (f, next)) e keeps =
      let (r, at, read, c) = changed_at-some id change s.folders f next e in
      elim (Bool-cases disk.writes_record) [
        | inr lost ↦ rw (write_changed, lost) stays
        | inl wrote ↦
            rw (write_changed, wrote)
              (rewritten id f (write_record (record next { updated_at = now }) f) r
                (record next { updated_at = now }) at read refl (keeps r next c))
      ]

  edit-Steps :
      (disk : Disk) (now : ℕ) (id : Text) (change : EmailRecord F → Option (EmailRecord F))
      (s : Store F)
      → ((r next : EmailRecord F)
          → change r ≡ some next
          → Keeps r (record next { updated_at = now }))
      → Steps disk s (edit disk now id change s).1
  unfolding edit
  edit-Steps disk now id change s keeps =
      if_cases (λ (t : Bool × Store F). Steps disk s t.1) (not s.enabled) (λ off. stays)
        (λ on. write_changed-Steps disk now id change s (changed_at id change s.folders) refl keeps)

  -- `confirm`, `price`, `inquire` and `approve` through `edit`.
  pub set_line-Steps :
      (disk : Disk) (now : ℕ) (id : Text) (index : ℕ) (change : RecordedMatch F → RecordedMatch F)
      (s : Store F)
      → Steps disk s (set_line disk now id index change s).1
  unfolding set_line
  set_line-Steps disk now id index change s = edit-Steps disk now id _ s (λ r next e.
      elim (Option-cases (change_line index change r.matching)) [
        | inl absent ↦ (let n : none ≡ some next = rw absent at e in cc)
        | inr (ms, found) ↦
            let same : some (record r { matching = ms }) ≡ some next = rw found at e in
            let written : record r { matching = ms } ≡ next = cc in
            rw⁻¹ written (record {
              same_id = refl;
              same_reference = refl;
              same_verdict = refl;
              same_approval = λ a h. h;
              same_inquiries = λ h. refl;
            })
      ])

  pub inquire-Steps :
      (disk : Disk) (now : ℕ) (id : Text) (inquiries : List RecordedInquiry) (s : Store F)
      → Steps disk s (inquire disk now id inquiries s).1
  unfolding inquire
  inquire-Steps disk now id inquiries s = edit-Steps disk now id _ s (λ r next e.
      elim (Bool-cases (has_inquiries r)) [
        | inl sent ↦ (let n : none ≡ some next = rw sent at e in cc)
        | inr unsent ↦
            let same : some (record r { inquiries = inquiries }) ≡ some next = rw unsent at e in
            let written : record r { inquiries = inquiries } ≡ next = cc in
            rw⁻¹ written (record {
              same_id = refl;
              same_reference = refl;
              same_verdict = refl;
              same_approval = λ a h. h;
              same_inquiries = λ h. absurd (let b : true ≡ false = sym h ∙ unsent in cc);
            })
      ])

  pub approve-Steps :
      (disk : Disk) (now : ℕ) (id : Text) (approval : RecordedApproval F) (prices : List (ℕ × F))
      (s : Store F)
      → Steps disk s (approve disk now id approval prices s).1
  unfolding approve
  approve-Steps disk now id approval prices s = edit-Steps disk now id _ s (λ r next e.
      elim (Bool-cases (is_some r.approval)) [
        | inl signed ↦ (let n : none ≡ some next = rw signed at e in cc)
        | inr unsigned ↦
            let made = record r {
              matching = map (approve_line prices) r.matching;
              approval = some approval;
            } in
            let same : some made ≡ some next = rw unsigned at e in
            let written : made ≡ next = cc in
            rw⁻¹ written (record {
              same_id = refl;
              same_reference = refl;
              same_verdict = refl;
              same_approval = λ a h. (let b : is_some (some a) ≡ false = rw h at unsigned in cc);
              same_inquiries = λ h. refl;
            })
      ])
