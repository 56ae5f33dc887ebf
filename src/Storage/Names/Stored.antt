-- ===== src/Storage/Names/Stored.antt =====
-- What the folder of an email holds after its files are saved.
use rfq_workflow_agent.Base.{
  ◌≡◌, ◌≢◌, refl, sym, ap, ◌∙◌, Bool, true, false, not, ◌&&◌, is_some, Option, none, some, List, [],
  ◌∷◌, arith, Bool-cases, Option-cases, inl, inr,
}
use rfq_workflow_agent.Base.Text.{Text, lower, member, distinct, text_eq, text_eq_iff, text_eq_refl}
use rfq_workflow_agent.Documents.Models.{SourceFile, Bytes}
use rfq_workflow_agent.Storage.Records.{RecordedFile}
use rfq_workflow_agent.Storage.Names.{
  reserved, safe_name, unique, Files, without_file, write_file, file_at, entry_of, not_kept,
  content_of, cons_entry, save_from, save_files,
}
use rfq_workflow_agent.Storage.Names.Apart.{unique-free}

text_eq_apart : (x y : Text) → x ≢ y → text_eq x y ≡ false
text_eq_apart x y h = elim (Bool-cases (text_eq x y)) [
  | inl same ↦ absurd (h ((text_eq_iff x y).0 same))
  | inr other ↦ other
]

file_at-without_file :
    (name other : Text) (fs : Files)
    → name ≢ other
    → file_at name (without_file other fs) ≡ file_at name fs
unfolding without_file
file_at-without_file name other [] h = refl
file_at-without_file name other ((n, b) ∷ fs) h = elim (Bool-cases (text_eq other n)) [
  | inl gone ↦
      let e : other ≡ n = (text_eq_iff other n).0 gone in
      let off : text_eq name n ≡ false = text_eq_apart name n (λ k. h (k ∙ sym e)) in
      rw (gone, off) (file_at-without_file name other fs h)
  | inr stays ↦ rw (stays, file_at-without_file name other fs h) refl
]

pub file_at-write_file :
    (name other : Text) (b : Bytes) (fs : Files)
    → name ≢ other
    → file_at name (write_file other b fs) ≡ file_at name fs
file_at-write_file name other b fs h =
    rw (text_eq_apart name other h) (file_at-without_file name other fs h)

-- The names under which entries are saved, without the case of their letters.
abbrev pub saved_names : List RecordedFile → List Text
saved_names [] = []
saved_names (e ∷ es) = elim (e.saved_as) [
  | none ↦ saved_names es
  | some n ↦ lower n ∷ saved_names es
]

-- The bytes of a file are kept where this is asked for, the file is no link, and there are bytes.
abbrev pub is_wanted : (keep : Bool) → SourceFile → Bool
is_wanted keep f = keep && not f.is_reference && is_some f.content

-- The bytes of a wanted file are in the folder under the name of its entry, which has no note; the
-- entry of another has no name and a note.
abbrev pub IsStored : (keep : Bool) → Files → SourceFile → RecordedFile → Type 0
IsStored keep fs f e = elim (e.saved_as) [
  | none ↦ (is_wanted keep f ≡ false) × (e.note ≢ none)
  | some n ↦ (is_wanted keep f ≡ true) × (e.note ≡ none) × (file_at n fs ≡ f.content)
]

abbrev pub Stored : (keep : Bool) → Files → List SourceFile → List RecordedFile → Type 0
Stored keep fs [] [] = Unit
Stored keep fs [] (e ∷ es) = ⊥
Stored keep fs (f ∷ files) [] = ⊥
Stored keep fs (f ∷ files) (e ∷ es) =
    (e.filename ≡ f.filename) × IsStored keep fs f e × Stored keep fs files es

-- No name is one of those that are taken.
abbrev pub avoids : List Text → List Text → Bool
avoids taken [] = true
avoids taken (n ∷ ns) = not (member n taken) && avoids taken ns

avoids-cons :
    (x : Text) (taken ns : List Text)
    → avoids (x ∷ taken) ns ≡ true
    → (avoids taken ns ≡ true) × (member x ns ≡ false)
avoids-cons x taken [] h = (refl, refl)
avoids-cons x taken (n ∷ ns) h =
    ground (arith, h, avoids-cons x taken ns, text_eq_iff x n, text_eq_iff n x, text_eq_refl x)

-- What holds of the entries and the folder; without entries, some name could not be written.
abbrev pub Saved :
    (keep : Bool) (writes : Text → Bool)
    → List SourceFile
    → List Text
    → Option (List RecordedFile) × Files
    → Type 0
Saved keep writes files taken (none, after) = (name : Text) × (writes name ≡ false)
Saved keep writes files taken (some es, after) =
    Stored keep after files es
    × (distinct (saved_names es) ≡ true)
    × (avoids taken (saved_names es) ≡ true)

-- The test of the code is whether the file is wanted.
not_kept-some :
    (keep : Bool) (f : SourceFile) (why : Text)
    → not_kept keep f ≡ some why
    → is_wanted keep f ≡ false
unfolding not_kept
not_kept-some keep f why h = elim (Bool-cases f.is_reference) [
  | inl link ↦ ground (arith, link)
  | inr file ↦ elim (Option-cases f.content) [
    | inl e ↦ ground (arith, file, e)
    | inr (b, e) ↦ ground (arith, file, e, h)
  ]
]

not_kept-none :
    (keep : Bool) (f : SourceFile)
    → not_kept keep f ≡ none
    → (is_wanted keep f ≡ true) × (some (content_of f) ≡ f.content)
unfolding not_kept
not_kept-none keep f h = elim (Bool-cases f.is_reference) [
  | inl link ↦ ground (arith, link, h)
  | inr file ↦ elim (Option-cases f.content) [
    | inl e ↦ ground (arith, file, e, h)
    | inr (b, e) ↦ ground (arith, file, e, h)
  ]
]

cons_entry-files :
    (e : RecordedFile) (r : Option (List RecordedFile) × Files) → (cons_entry e r).1 ≡ r.1
unfolding cons_entry
cons_entry-files e (none, fs) = refl
cons_entry-files e (some es, fs) = refl

Saved-unkept :
    (keep : Bool) (writes : Text → Bool) (f : SourceFile) (why : Text) (files : List SourceFile)
    (taken : List Text) (r : Option (List RecordedFile) × Files)
    → not_kept keep f ≡ some why
    → Saved keep writes files taken r
    → Saved keep writes (f ∷ files) taken (cons_entry (record (entry_of f) { note = some why }) r)
unfolding cons_entry entry_of
Saved-unkept keep writes f why files taken (none, fs) e s = s
Saved-unkept keep writes f why files taken (some es, fs) e (stored, apart, avoid) =
    ((refl, (not_kept-some keep f why e, λ n. cc), stored), apart, avoid)

Saved-kept :
    (keep : Bool) (writes : Text → Bool) (f : SourceFile) (name : Text) (files : List SourceFile)
    (taken : List Text) (r : Option (List RecordedFile) × Files)
    → not_kept keep f ≡ none
    → Saved keep writes files (lower name ∷ taken) r
    → file_at name r.1 ≡ some (content_of f)
    → member (lower name) taken ≡ false
    → Saved keep writes
        (f ∷ files)
        taken
        (cons_entry (record (entry_of f) { saved_as = some name }) r)
unfolding cons_entry entry_of
Saved-kept keep writes f name files taken (none, fs) e s at free = s
Saved-kept keep writes f name files taken (some es, fs) e (stored, apart, avoid) at free =
    let (avoid_rest, not_again) = avoids-cons (lower name) taken (saved_names es) avoid in
    let (wanted, bytes) = not_kept-none keep f e in
    (
      (refl, (wanted, refl, at ∙ bytes), stored),
      ground (arith, apart, not_again),
      ground (arith, free, avoid_rest),
    )

module _ (keep : Bool) (writes : Text → Bool) where
  -- A file whose name is taken is left alone.
  pub save_from-keeps :
      (files : List SourceFile) (taken : List Text) (fs : Files) (name : Text)
      → member (lower name) taken ≡ true
      → file_at name (save_from keep writes files taken fs).1 ≡ file_at name fs
  unfolding save_from
  save_from-keeps [] taken fs name h = refl
  save_from-keeps (f ∷ files) taken fs name h = elim (Option-cases (not_kept keep f)) [
    | inr (why, e) ↦
        rw (save_from, e)
          (ap (file_at name) (cons_entry-files _ (save_from keep writes files taken fs))
            ∙ save_from-keeps files taken fs name h)
    | inl kept ↦
        let chosen = (unique (safe_name f.filename) taken).0 in
        let used = (unique (safe_name f.filename) taken).1 in
        let after = write_file chosen (content_of f) fs in
        let (free, all_used) = unique-free (safe_name f.filename) taken in
        let differ : name ≢ chosen =
          λ e. (let used_too : member (lower chosen) taken ≡ true = rw e at h in cc) in
        let member_used : member (lower name) used ≡ true = rw all_used (ground (arith, h)) in
        elim (Bool-cases (writes chosen)) [
          | inl wrote ↦
              rw (save_from, kept, wrote)
                (ap (file_at name) (cons_entry-files _ (save_from keep writes files used after))
                  ∙ (save_from-keeps files used after name member_used
                      ∙ file_at-write_file name chosen (content_of f) fs differ))
          | inr lost ↦ rw (save_from, kept, lost) refl
        ]
  ]

  save_from-Saved :
      (files : List SourceFile) (taken : List Text) (fs : Files)
      → Saved keep writes files taken (save_from keep writes files taken fs)
  unfolding save_from
  save_from-Saved [] taken fs = (tt, refl, refl)
  save_from-Saved (f ∷ files) taken fs = elim (Option-cases (not_kept keep f)) [
    | inr (why, e) ↦
        rw (save_from, e)
          (Saved-unkept keep writes f why files taken (save_from keep writes files taken fs) e
            (save_from-Saved files taken fs))
    | inl kept ↦
        let chosen = (unique (safe_name f.filename) taken).0 in
        let used = (unique (safe_name f.filename) taken).1 in
        let after = write_file chosen (content_of f) fs in
        let (free, all_used) = unique-free (safe_name f.filename) taken in
        let later = save_from keep writes files used after in
        let saved : Saved keep writes files (lower chosen ∷ taken) later =
          rw (← all_used) (save_from-Saved files used after) in
        let there : file_at chosen later.1 ≡ some (content_of f) =
          save_from-keeps files used after chosen
            (rw all_used (ground (arith, text_eq_refl (lower chosen))))
          ∙ rw (text_eq_refl chosen) refl in
        elim (Bool-cases (writes chosen)) [
          | inl wrote ↦
              rw (save_from, kept, wrote)
                (Saved-kept keep writes f chosen files taken later kept saved there free)
          | inr lost ↦ rw (save_from, kept, lost) ((chosen, lost))
        ]
  ]

  -- Saving the files of an email ends without entries only where some name cannot be written.
  -- Otherwise each file has an entry with its filename, in their order: where bytes are to be kept, the
  -- file is no link and its bytes are there, the entry names a file of the folder with exactly these
  -- bytes and has no note; else it names none and has a note. The names differ from each other and from
  -- the record's own files, whatever the case of their letters.
  pub save_files-Saved :
      (files : List SourceFile) (fs : Files)
      → Saved keep writes files reserved (save_files keep writes files fs)
  unfolding save_files
  save_files-Saved files fs = save_from-Saved files reserved fs
