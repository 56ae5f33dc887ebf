-- ===== src/Storage/Kept.antt =====
-- Runs of operations on the records: what they keep.
use rfq_workflow_agent.Base.{
  ℕ, ◌≡◌, refl, sym, ap, ◌∙◌, Bool, true, false, Option, none, some, List, [], ◌∷◌, ◌++◌,
  Bool-cases, Option-cases, inl, inr,
}
use rfq_workflow_agent.Base.Text.{Text, text_eq, text_eq_iff}
use rfq_workflow_agent.Domain.Models.{NormalizedEmail, ClassificationOutcome}
use rfq_workflow_agent.Storage.Records.{RecordedInquiry, RecordedApproval, EmailRecord}
use rfq_workflow_agent.Storage.Store.{
  Disk, Folder, Store, folder_at, put_folder, record_at, email_in, confirm, price, inquire,
  has_inquiries, approve, Changes, update,
}
use rfq_workflow_agent.Storage.Open.{open_record}
use rfq_workflow_agent.Storage.Steps.{Keeps, Keeps-refl, IsStep, Steps, stays, rewritten, added}
use rfq_workflow_agent.Storage.Steps.Edits.{set_line-Steps, inquire-Steps, approve-Steps}
use rfq_workflow_agent.Storage.Steps.Updates.{update-Steps}
use rfq_workflow_agent.Storage.Steps.Opens.{open_record-Steps}

-- The calls that write.
pub data Request (F : Type 0) : Type 0 where
  opening :
      (fresh : Text) (email : NormalizedEmail) (outcome : Option (ClassificationOutcome F))
      (decision_id : Option Text) (source note : Text)
      → Request F
  updating : (id : Option Text) → Changes F → Request F
  confirming : (id : Text) (index : ℕ) (code : Option Text) → Request F
  pricing : (id : Text) (index : ℕ) (unit_price : Option F) → Request F
  inquiring : (id : Text) → List RecordedInquiry → Request F
  approving : (id : Text) → RecordedApproval F → List (ℕ × F) → Request F

module _ {F : Type 0} where
  unfoldable pub step_request : (stamp : ℕ → Text) → Disk → ℕ → Request F → Store F → Store F
  step_request stamp disk now (opening fresh email outcome decision_id source note) s =
      (open_record disk stamp fresh now email outcome decision_id source note s).1
  step_request stamp disk now (updating id c) s = update disk now id c s
  step_request stamp disk now (confirming id index code) s = (confirm disk now id index code s).1
  step_request stamp disk now (pricing id index unit_price) s =
      (price disk now id index unit_price s).1
  step_request stamp disk now (inquiring id inquiries) s = (inquire disk now id inquiries s).1
  step_request stamp disk now (approving id approval prices) s =
      (approve disk now id approval prices s).1

  -- The lock lets one of them run at a time.
  unfoldable pub run_requests : (stamp : ℕ → Text) → List (Disk × ℕ × Request F) → Store F → Store F
  unfolding step_request
  run_requests stamp [] s = s
  run_requests stamp ((disk, now, q) ∷ qs) s =
      run_requests stamp qs (step_request stamp disk now q s)

  -- Each writing call does nothing to the folders and the counter, or writes one record again with its
  -- id, reference, verdict, approval and sent inquiries kept, or adds one folder under a new name, whose
  -- record, if it was written, has that name as its id, and no reference or that of the number counted
  -- last. Where the call can read the counter that is there, and a counter that cannot be written is
  -- not lost, that number is the next one, and without a reference the counter does not go back.
  pub step_request-Steps :
      (stamp : ℕ → Text) (disk : Disk) (now : ℕ) (q : Request F) (s : Store F)
      → Steps disk s (step_request stamp disk now q s)
  unfolding step_request confirm price
  step_request-Steps stamp disk now (opening fresh email outcome decision_id source note) s =
      open_record-Steps disk stamp fresh now email outcome decision_id source note s
  step_request-Steps stamp disk now (updating id c) s = update-Steps disk now id c s
  step_request-Steps stamp disk now (confirming id index code) s =
      set_line-Steps disk now id index _ s
  step_request-Steps stamp disk now (pricing id index unit_price) s =
      set_line-Steps disk now id index _ s
  step_request-Steps stamp disk now (inquiring id inquiries) s =
      inquire-Steps disk now id inquiries s
  step_request-Steps stamp disk now (approving id approval prices) s =
      approve-Steps disk now id approval prices s

  pub folder_at-put :
      (id : Text) (g : Folder F) (fs : List (Text × Folder F)) (f : Folder F)
      → folder_at id fs ≡ some f
      → folder_at id (put_folder id g fs) ≡ some g
  unfolding folder_at put_folder
  folder_at-put id g [] f h = cc
  folder_at-put id g ((n, x) ∷ fs) f h = elim (Bool-cases (text_eq id n)) [
    | inl here ↦ rw (here, here) refl
    | inr later ↦
        let at : folder_at id fs ≡ some f = rw later at h in
        rw (later, later) (folder_at-put id g fs f at)
  ]

  folder_at-put_other :
      (id other : Text) (g : Folder F) (fs : List (Text × Folder F))
      → text_eq id other ≡ false
      → folder_at id (put_folder other g fs) ≡ folder_at id fs
  unfolding folder_at put_folder
  folder_at-put_other id other g [] h = refl
  folder_at-put_other id other g ((n, x) ∷ fs) h = elim (Bool-cases (text_eq other n)) [
    | inl here ↦
        let e : other ≡ n = (text_eq_iff other n).0 here in
        let off : text_eq id n ≡ false = rw⁻¹ e h in rw (here, off) refl
    | inr later ↦ rw (later, folder_at-put_other id other g fs h) refl
  ]

  folder_at-append :
      (id : Text) (f : Folder F) (fs more : List (Text × Folder F))
      → folder_at id fs ≡ some f
      → folder_at id (fs ++ more) ≡ some f
  unfolding folder_at
  folder_at-append id f [] more h = cc
  folder_at-append id f ((n, x) ∷ fs) more h = elim (Bool-cases (text_eq id n)) [
    | inl here ↦ rw here (rw here at h)
    | inr later ↦ rw later (folder_at-append id f fs more (rw later at h))
  ]

  Keeps-trans : (a b c : EmailRecord F) → Keeps a b → Keeps b c → Keeps a c
  Keeps-trans a b c k l = record {
    same_id = l.same_id ∙ k.same_id;
    same_reference = l.same_reference ∙ k.same_reference;
    same_verdict = l.same_verdict ∙ k.same_verdict;
    same_approval = λ x e. l.same_approval x (k.same_approval x e);
    same_inquiries = λ h.
        let e = k.same_inquiries h in
        let sent : has_inquiries b ≡ true = rw e h in l.same_inquiries sent ∙ e;
  }

  -- A record that is there is still there after a step_request, and is kept.
  IsStep-Keeps :
      (spared : Bool) (fs gs : List (Text × Folder F)) (c d : Option ℕ) (id : Text)
      (r : EmailRecord F)
      → IsStep spared fs c gs d
      → record_at id fs ≡ some r
      → (next : EmailRecord F) × (record_at id gs ≡ some next) × Keeps r next
  unfolding record_at
  IsStep-Keeps spared fs _ c _ id r stays h = (r, h, Keeps-refl r)
  IsStep-Keeps spared fs _ c _ id r (rewritten other f g old next at read wrote k) h =
      elim (Bool-cases (text_eq id other)) [
        | inr off ↦ (r, ap email_in (folder_at-put_other id other g fs off) ∙ h, Keeps-refl r)
        | inl here ↦
            let e : id ≡ other = (text_eq_iff id other).0 here in
            let there : folder_at id fs ≡ some f = rw e at in
            let was : some old ≡ some r = sym read ∙ (sym (ap email_in there) ∙ h) in
            let same : old ≡ r = cc in
            let put : folder_at id (put_folder other g fs) ≡ some g =
              rw e (folder_at-put other g fs f at) in
            (next, ap email_in put ∙ wrote, rw⁻¹ same k)
      ]
  IsStep-Keeps spared fs _ c d id r (added other g free new) h =
      elim (Option-cases (folder_at id fs)) [
        | inl missing ↦ (let n : none ≡ some r = rw missing at h in cc)
        | inr (f, at) ↦ (
          r,
          ap email_in (folder_at-append id f fs ((other, g) ∷ []) at) ∙ (sym (ap email_in at) ∙ h),
          Keeps-refl r,
        )
      ]

  -- Whatever the writing calls do, in whatever order, and whichever of their writes to the disk fail, a
  -- record that is there stays there: with its id, its RFQ reference and its verdict, with the approval
  -- it has once it has one, and with its inquiries once there are any.
  pub run_requests-Keeps :
      (stamp : ℕ → Text) (qs : List (Disk × ℕ × Request F)) (s : Store F) (id : Text)
      (r : EmailRecord F)
      → record_at id s.folders ≡ some r
      → (next : EmailRecord F) × (record_at id (run_requests stamp qs s).folders ≡ some next)
        × Keeps r next
  unfolding run_requests
  run_requests-Keeps stamp [] s id r h = (r, h, Keeps-refl r)
  run_requests-Keeps stamp ((disk, now, q) ∷ qs) s id r h =
      let after = step_request stamp disk now q s in
      let (m, at, k) =
        IsStep-Keeps _ s.folders after.folders s.counter after.counter id r
          (step_request-Steps stamp disk now q s) h in
      let (next, later, l) = run_requests-Keeps stamp qs after id m at in
      (next, later, Keeps-trans r m next k l)
