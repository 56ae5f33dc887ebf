-- ===== src/Storage/Steps/Opens.antt =====
-- `open`, as a step.
use rfq_workflow_agent.Base.{
  ℕ, suc, ◌≤◌, ◌≡◌, refl, sym, ap, ◌∙◌, Bool, true, false, not, ◌&&◌, Option, none, some, List, [],
  ◌∷◌, ◌++◌, if◌then◌else◌, length, drop, arith, Bool-cases, inl, inr,
}
use rfq_workflow_agent.Base.Text.{Text, txt, text_eq, non_empty, member}
use rfq_workflow_agent.Base.Digits.{show, number_from, number_from-show_end}
use rfq_workflow_agent.Base.Fresh.{first_free_sound, first_free_found, IsDistinct}
use rfq_workflow_agent.Domain.Models.{NormalizedEmail, ClassificationOutcome}
use rfq_workflow_agent.Storage.Records.{EmailRecord}
use rfq_workflow_agent.Storage.Names.Apart.{drop-append}
use rfq_workflow_agent.Storage.Store.{Disk, Folder, Store, folder_at, write_record, announce}
use rfq_workflow_agent.Storage.Open.{
  issued, taken_names, dashed, make_folder, counter_read, take_number, is_rfq, new_record,
  empty_folder, add_folder, write_new, open_numbered, open_record, record_id, or_now,
}
use rfq_workflow_agent.Storage.Steps.{spares_counter, IsNumbered, Steps, stays, added}

IsNumbered-issued :
    (spared : Bool) (before : Option ℕ) (number : Option Text) (after : Option ℕ)
    → IsNumbered spared before number after
    → spared ≡ true
    → issued before ≤ issued after
IsNumbered-issued spared before none after h on = h on
IsNumbered-issued spared before (some number) after (e, h) on = omega (arith, h on)

-- `open`: the new folder has a name of its own.
dashed-IsDistinct : (wanted : Text) → IsDistinct (dashed wanted)
unfolding dashed
dashed-IsDistinct wanted = record {
  apart = λ i j e.
      let tails : txt "-" ++ show i ≡ txt "-" ++ show j =
        sym (drop-append wanted (txt "-" ++ show i))
        ∙ (ap (drop (length wanted)) e ∙ drop-append wanted (txt "-" ++ show j)) in
      sym (number_from-show_end i)
      ∙ (ap (λ t. number_from 0 (drop 1 t)) tails ∙ number_from-show_end j);
}

make_folder-free :
    (wanted : Text) (taken : List Text) → member (make_folder wanted taken) taken ≡ false
unfolding make_folder dashed
make_folder-free wanted taken = elim (Bool-cases (member wanted taken)) [
  | inr free ↦ rw (make_folder, free) free
  | inl used ↦
      let d : IsDistinct (dashed wanted) = dashed-IsDistinct wanted in
      let (k, e) = first_free_found (dashed wanted) d (suc (length taken)) 2 taken (omega arith) in
      rw (make_folder, used, e)
        (first_free_sound (dashed wanted) d (suc (length taken)) 2 k taken e)
]

abbrev IsTaken : (spared : Bool) → Option ℕ → Option (Option Text) × Option ℕ → Type 0
IsTaken spared c (none, after) = spared ≡ true → issued c ≤ issued after
IsTaken spared c (some number, after) = IsNumbered spared c number after

-- A counter that is spared is read as it is, and left as it is where it cannot be written.
counter_read-spares :
    (disk : Disk) (c : Option ℕ) → spares_counter disk ≡ true → counter_read disk c ≡ c
unfolding counter_read
counter_read-spares disk c h =
    let reads : disk.reads_counter ≡ true = ground (arith, h) in rw reads refl

keeps-spares :
    (disk : Disk)
    → disk.writes_counter ≡ false
    → spares_counter disk ≡ true
    → disk.keeps_counter ≡ true
keeps-spares disk lost h = ground (arith, h, lost)

take_number-IsTaken :
    (disk : Disk) (rfq : Bool) (c : Option ℕ) (spared : Bool)
    → (spared ≡ true → spares_counter disk ≡ true)
    → IsTaken spared c (take_number disk rfq c)
unfolding take_number
take_number-IsTaken disk false c spared h = λ on. omega arith
take_number-IsTaken disk true c spared h = elim (Bool-cases disk.writes_counter) [
  | inl wrote ↦ simp wrote ((refl, λ on. rw (counter_read-spares disk c (h on)) refl))
  | inr lost ↦ simp lost (λ on. rw (keeps-spares disk lost (h on)) (omega arith))
]

module _ {F : Type 0} where
  taken_names-at :
      (id : Text) (fs : List (Text × Folder F))
      → member id (taken_names fs) ≡ false
      → folder_at id fs ≡ none
  unfolding taken_names folder_at
  taken_names-at id [] h = refl
  taken_names-at id ((n, f) ∷ fs) h =
      let other : text_eq id n ≡ false = ground (arith, h) in
      let later : member id (taken_names fs) ≡ false = ground (arith, h) in
      rw other (taken_names-at id fs later)

  -- Where the code returns at once, nothing is done.
  guard-Steps :
      (disk : Disk) (b : Bool) (a : Option Text) (s : Store F) (x : Option Text × Store F)
      → Steps disk s x.1
      → Steps disk s (if b then (a, s) else x).1
  guard-Steps disk true a s x k = stays
  guard-Steps disk false a s x k = k

  module _ (disk : Disk) (email : NormalizedEmail) where
    write_new-Steps :
        (r : EmailRecord F) (c : Option ℕ) (s : Store F)
        → member r.id (taken_names s.folders) ≡ false
        → IsNumbered (spares_counter disk) s.counter r.rfq_reference c
        → Steps disk s (write_new disk email r c s).1
    unfolding write_new write_record announce add_folder
    write_new-Steps r c s free numbered =
        let burnt = IsNumbered-issued (spares_counter disk) s.counter r.rfq_reference c numbered in
        elim (Bool-cases (non_empty email.body_text && not disk.writes_body)) [
          | inl lost ↦ rw (write_new, lost) (added r.id empty_folder free burnt)
          | inr kept ↦ elim (Bool-cases disk.writes_record) [
            | inl wrote ↦ rw (write_new, kept, wrote) (added r.id _ free (refl, numbered))
            | inr lost ↦ rw (write_new, kept, lost) (added r.id _ free burnt)
          ]
        ]

    open_numbered-Steps :
        (make : Option Text → EmailRecord F) (id : Text) (taken : Option (Option Text) × Option ℕ)
        (s : Store F)
        → ((number : Option Text)
            → ((make number).id ≡ id) × ((make number).rfq_reference ≡ number))
        → member id (taken_names s.folders) ≡ false
        → IsTaken (spares_counter disk) s.counter taken
        → Steps disk s (open_numbered disk email make id taken s).1
    unfolding open_numbered add_folder
    open_numbered-Steps make id (none, c) s made free t = added id empty_folder free t
    open_numbered-Steps make id (some number, c) s made free t =
        write_new-Steps (make number) c s (rw (made number).0 free) (rw (made number).1 t)

  pub open_record-Steps :
      (disk : Disk) (stamp : ℕ → Text) (fresh : Text) (now : ℕ) (email : NormalizedEmail)
      (outcome : Option (ClassificationOutcome F)) (decision_id : Option Text) (source note : Text)
      (s : Store F)
      → Steps disk s (open_record disk stamp fresh now email outcome decision_id source note s).1
  unfolding open_record new_record
  open_record-Steps disk stamp fresh now email outcome decision_id source note s =
      let wanted = record_id stamp fresh (or_now email.received_at now) decision_id in
      let id = make_folder wanted (taken_names s.folders) in
      guard-Steps disk (not s.enabled) none s _ (
        guard-Steps disk (not disk.makes_folder) none s _ (
          open_numbered-Steps disk email (new_record email outcome decision_id source note now id)
            id (take_number disk (is_rfq outcome) s.counter) s (λ number. (refl, refl))
            (make_folder-free wanted (taken_names s.folders))
            (take_number-IsTaken disk (is_rfq outcome) s.counter (spares_counter disk) (λ on. on))))
