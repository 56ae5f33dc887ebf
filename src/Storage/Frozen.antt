-- ===== src/Storage/Frozen.antt =====
-- What is signed off or sent stays so.
use rfq_workflow_agent.Base.{
  ℕ, ◌≡◌, refl, sym, ap, ◌∙◌, Bool, true, false, not, Option, none, some, List, ◌∷◌, is_some,
  Bool-cases, if_cases, Option-cases, inl, inr, if◌then◌else◌,
}
use rfq_workflow_agent.Base.Text.{Text}
use rfq_workflow_agent.Storage.Records.{RecordedInquiry, RecordedApproval, EmailRecord}
use rfq_workflow_agent.Storage.Store.{
  Disk, Folder, Store, folder_at, record_at, email_in, write_record, announce, changed_at,
  write_changed, edit, inquire, has_inquiries, approve,
}
use rfq_workflow_agent.Storage.Steps.Edits.{changed_at-some}
use rfq_workflow_agent.Storage.Kept.{Request, run_requests, run_requests-Keeps, folder_at-put}

-- A guarded change that was made.
guard-some {ℓ} : {A : Type ℓ} (b : Bool) (x y : A) → (if b then none else some x) ≡ some y → x ≡ y
guard-some true x y h = cc
guard-some false x y h = cc

module _ {F : Type 0} where
  -- Where `edit` answers true, the record was there, the change took it, and it is in its place.
  write_changed-true :
      (disk : Disk) (now : ℕ) (id : Text) (change : EmailRecord F → Option (EmailRecord F))
      (s : Store F) (found : Option (Folder F × EmailRecord F))
      → changed_at id change s.folders ≡ found
      → (write_changed disk now id found s).0 ≡ true
      → (r : EmailRecord F) × (next : EmailRecord F) × (change r ≡ some next)
        × (record_at id (write_changed disk now id found s).1.folders
            ≡ some (record next { updated_at = now }))
  unfolding write_changed record_at write_record announce
  write_changed-true disk now id change s none e h = cc
  write_changed-true disk now id change s (some (f, next)) e h =
      let (r, at, read, c) = changed_at-some id change s.folders f next e in
      elim (Bool-cases disk.writes_record) [
        | inr lost ↦ (let n : false ≡ true = rw lost at h in cc)
        | inl wrote ↦ (
          r,
          next,
          c,
          rw wrote (
              ap email_in (
                folder_at-put id (write_record (record next { updated_at = now }) f) s.folders f
                  at)),
        )
      ]

  edit-true :
      (disk : Disk) (now : ℕ) (id : Text) (change : EmailRecord F → Option (EmailRecord F))
      (s : Store F)
      → (edit disk now id change s).0 ≡ true
      → (r : EmailRecord F) × (next : EmailRecord F) × (change r ≡ some next)
        × (record_at id (edit disk now id change s).1.folders
            ≡ some (record next { updated_at = now }))
  unfolding edit
  edit-true disk now id change s =
      if_cases
        (λ (t : Bool × Store F).
          t.0 ≡ true
          → (r : EmailRecord F) × (next : EmailRecord F) × (change r ≡ some next)
            × (record_at id t.1.folders ≡ some (record next { updated_at = now })))
        (not s.enabled) (λ off h. cc)
        (λ on h. write_changed-true disk now id change s (changed_at id change s.folders) refl h)

  -- Where the change refuses the record, `edit` answers false and nothing is written.
  changed_at-refused :
      (id : Text) (change : EmailRecord F → Option (EmailRecord F)) (fs : List (Text × Folder F))
      (r : EmailRecord F)
      → record_at id fs ≡ some r
      → change r ≡ none
      → changed_at id change fs ≡ none
  unfolding changed_at record_at
  changed_at-refused id change fs r h refuses = elim (Option-cases (folder_at id fs)) [
    | inl missing ↦ rw (changed_at, missing) refl
    | inr (f, at) ↦
        let read : f.email ≡ some r = sym (ap email_in at) ∙ h in
        rw (changed_at, at, read, refuses) refl
  ]

  edit-refused :
      (disk : Disk) (now : ℕ) (id : Text) (change : EmailRecord F → Option (EmailRecord F))
      (s : Store F) (r : EmailRecord F)
      → record_at id s.folders ≡ some r
      → change r ≡ none
      → edit disk now id change s ≡ (false, s)
  unfolding edit write_changed
  edit-refused disk now id change s r h refuses =
      if_cases (λ t. t ≡ (false, s)) (not s.enabled) (λ off. refl)
        (λ on. rw (changed_at-refused id change s.folders r h refuses) refl)

  -- Once an approval of a record was written, whatever is called after it, no second one is: it answers
  -- false and changes nothing, and the record keeps the approval of the first.
  pub approve-once :
      (stamp : ℕ → Text) (disk later : Disk) (now moment : ℕ) (id : Text)
      (approval again : RecordedApproval F) (prices others : List (ℕ × F))
      (qs : List (Disk × ℕ × Request F)) (s : Store F)
      → (approve disk now id approval prices s).0 ≡ true
      → let after = run_requests stamp qs (approve disk now id approval prices s).1 in
        (approve later moment id again others after ≡ (false, after))
        × (r : EmailRecord F) × (record_at id after.folders ≡ some r)
        × (r.approval ≡ some approval)
  unfolding approve
  approve-once stamp disk later now moment id approval again prices others qs s h =
      let (r, next, c, at) = edit-true disk now id _ s h in
      let made = guard-some (is_some r.approval) _ next c in
      let signed : next.approval ≡ some approval = ap (λ x. x.approval) (sym made) in
      let (last, there, k) =
        run_requests-Keeps stamp qs (approve disk now id approval prices s).1 id _ at in
      let stays : last.approval ≡ some approval = k.same_approval approval signed in
      (edit-refused later moment id _ _ last there (rw stays refl), last, there, stays)

  -- Once the inquiries of a record were written, whatever is called after it, no others are: `inquire`
  -- answers false and changes nothing, and the record keeps the letters that were sent.
  pub inquire-once :
      (stamp : ℕ → Text) (disk later : Disk) (now moment : ℕ) (id : Text) (letter : RecordedInquiry)
      (letters others : List RecordedInquiry) (qs : List (Disk × ℕ × Request F)) (s : Store F)
      → (inquire disk now id (letter ∷ letters) s).0 ≡ true
      → let after = run_requests stamp qs (inquire disk now id (letter ∷ letters) s).1 in
        (inquire later moment id others after ≡ (false, after))
        × (r : EmailRecord F) × (record_at id after.folders ≡ some r)
        × (r.inquiries ≡ letter ∷ letters)
  unfolding inquire
  inquire-once stamp disk later now moment id letter letters others qs s h =
      let (r, next, c, at) = edit-true disk now id _ s h in
      let made = guard-some (has_inquiries r) _ next c in
      let sent : next.inquiries ≡ letter ∷ letters = ap (λ x. x.inquiries) (sym made) in
      let (last, there, k) =
        run_requests-Keeps stamp qs (inquire disk now id (letter ∷ letters) s).1 id _ at in
      let stays : last.inquiries ≡ letter ∷ letters = k.same_inquiries (rw sent refl) ∙ sent in
      (
        edit-refused later moment id _ _ last there (rw (has_inquiries, stays) refl),
        last,
        there,
        stays,
      )
