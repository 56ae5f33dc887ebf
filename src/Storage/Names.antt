-- ===== src/Storage/Names.antt =====
-- The names that a record gives to the customer's files: `_safe_name`, `_unique`, `_save_files` and
-- `_save_form`. The number in front of a name's ending is found by a search with one round more than
-- there are names taken.
pub mod Apart
pub mod Stored
use rfq_workflow_agent.Base.{
  ℕ, zero, suc, ◌+◌, Bool, true, false, not, ◌||◌, Option, none, some, List, [], ◌∷◌, ◌++◌,
  if◌then◌else◌, ◌==◌, length, take, or_else,
}
use rfq_workflow_agent.Base.Text.{Text, txt, lower, member, non_empty, strip, text_eq}
use rfq_workflow_agent.Base.Digits.{show}
use rfq_workflow_agent.Base.Fresh.{first_free}
use rfq_workflow_agent.Base.Words.{is_word}
use rfq_workflow_agent.Documents.Models.{SourceFile, Bytes}
use rfq_workflow_agent.Storage.Records.{RecordedFile}

-- `RESERVED`
abbrev pub reserved : List Text
reserved = txt "email.json" ∷ txt "body.txt" ∷ []

-- What stands behind the last `/` or `\`, if there is one.
unfoldable pub after_last_slash : Text → Option Text
after_last_slash [] = none
after_last_slash (c ∷ s) =
    or_else (after_last_slash s) (if c == b'/' || c == 92 then some s else none)

abbrev pub is_safe : ℕ → Bool
is_safe c = is_word c || c == b'.' || c == b'(' || c == b')' || c == b'-' || c == b' '

-- `UNSAFE.sub("_", text)`; the flag tells that the run before was replaced already.
unfoldable pub scrub : (replaced : Bool) → Text → Text
scrub replaced [] = []
scrub replaced (c ∷ s) =
    let kept = scrub false s in
    let gone = scrub true s in
    if is_safe c then c ∷ kept else if replaced then gone else b'_' ∷ gone

abbrev pub is_edge : ℕ → Bool
is_edge c = c == b'.' || c == b' '

unfoldable pub strip_start : Text → Text
strip_start [] = []
strip_start (c ∷ s) = let rest = strip_start s in if is_edge c then rest else c ∷ s

unfoldable pub strip_end : Text → Text
strip_end [] = []
strip_end (c ∷ s) =
    let rest = strip_end s in
    if is_edge c then (if non_empty rest then c ∷ rest else []) else c ∷ rest

-- `_safe_name`
unfoldable pub safe_name : Text → Text
unfolding after_last_slash scrub strip_start strip_end
safe_name name =
    let last = strip (elim (after_last_slash name) [ none ↦ name | some s ↦ s ]) in
    let kept = take 120 (strip_end (strip_start (scrub false last))) in
    if non_empty kept then kept else txt "attachment"

-- `name.rpartition(".")`: what stands before and behind the last dot, if there is one.
unfoldable pub last_dot : Text → Option (Text × Text)
last_dot [] = none
last_dot (c ∷ s) = elim (last_dot s) [
  | none ↦ if c == b'.' then some ([], s) else none
  | some parts ↦ some (c ∷ parts.0, parts.1)
]

-- What stands before and behind the number in a candidate of `_unique`.
unfoldable pub around_number : Text → Text × Text
unfolding last_dot
around_number name = elim (last_dot name) [
  | none ↦ (name ++ txt " (", txt ")")
  | some parts ↦
      if non_empty parts.0
      then (parts.0 ++ txt " (", txt ")." ++ parts.1)
      else (name ++ txt " (", txt ")")
]

unfoldable pub numbered : Text → ℕ → Text
numbered name i = (around_number name).0 ++ (show i ++ (around_number name).1)

-- `_unique`: the name, and the names that are taken with it.
unfoldable pub unique : Text → List Text → Text × List Text
unique name taken =
    let chosen : Text =
      if member (lower name) taken
      then elim (first_free (suc (length taken)) (λ i. lower (numbered name i)) taken 2) [
        | none ↦ name
        | some k ↦ numbered name k
      ]
      else name in
    (chosen, lower chosen ∷ taken)

abbrev pub Files : Type 0
Files = List (Text × Bytes)

unfoldable pub without_file : Text → Files → Files
without_file name [] = []
without_file name ((n, b) ∷ fs) =
    let rest = without_file name fs in if text_eq name n then rest else (n, b) ∷ rest

-- `write_bytes`
abbrev pub write_file : Text → Bytes → Files → Files
write_file name content fs = (name, content) ∷ without_file name fs

-- The bytes of a file of the folder.
abbrev pub file_at : Text → Files → Option Bytes
file_at name [] = none
file_at name ((n, b) ∷ fs) = if text_eq name n then some b else file_at name fs

-- The entry of a file before it is known whether its bytes are kept.
unfoldable pub entry_of : SourceFile → RecordedFile
entry_of f = record {
  filename = f.filename;
  content_type = f.content_type;
  size_bytes = elim (f.size_bytes) [
    | zero ↦ elim (f.content) [ none ↦ 0 | some b ↦ length b ]
    | suc n ↦ suc n
  ];
  saved_as = none;
  note = none;
}

-- Why the bytes of a file are not kept, if they are not.
unfoldable pub not_kept : (keep : Bool) → SourceFile → Option Text
not_kept keep f =
    if f.is_reference
    then some (txt "A OneDrive or SharePoint link - there are no bytes to keep")
    else elim (f.content) [
      | none ↦ some (txt "Could not be downloaded from the mailbox")
      | some b ↦
          if keep
          then none
          else some (txt "Downloaded and read, but DATABASE_KEEP_ATTACHMENTS is off")
    ]

abbrev pub content_of : SourceFile → Bytes
content_of f = elim (f.content) [ none ↦ [] | some b ↦ b ]

-- One more entry in front, where the saving goes on to its end.
unfoldable pub cons_entry :
    RecordedFile → Option (List RecordedFile) × Files → Option (List RecordedFile) × Files
cons_entry e (none, fs) = (none, fs)
cons_entry e (some es, fs) = (some (e ∷ es), fs)

-- The loop of `_save_files`, with the names taken so far: the entries, or `none` where a write raises,
-- and the files of the folder. `writes` tells which names can be written.
unfoldable pub save_from :
    (keep : Bool) (writes : Text → Bool)
    → List SourceFile
    → List Text
    → Files
    → Option (List RecordedFile) × Files
save_from keep writes [] taken fs = (some [], fs)
save_from keep writes (f ∷ rest) taken fs = elim (not_kept keep f) [
  | some why ↦
      let later = save_from keep writes rest taken fs in
      cons_entry (record (entry_of f) { note = some why }) later
  | none ↦
      let (name, used) = unique (safe_name f.filename) taken in
      let later = save_from keep writes rest used (write_file name (content_of f) fs) in
      if writes name
      then cons_entry (record (entry_of f) { saved_as = some name }) later
      else (none, fs)
]

-- `_save_files`
unfoldable pub save_files :
    (keep : Bool) (writes : Text → Bool)
    → List SourceFile
    → Files
    → Option (List RecordedFile) × Files
save_files keep writes files fs = save_from keep writes files reserved fs

-- `_save_form`
unfoldable pub save_form :
    (writes : Text → Bool) (filename : Text) (content : Bytes) (taken : List Text)
    → Files
    → Option RecordedFile × Files
save_form writes filename content taken fs =
    let name = (unique (safe_name filename) taken).0 in
    if writes name
    then (
      some (record {
        filename = filename;
        content_type = none;
        size_bytes = length content;
        saved_as = some name;
        note = none;
      }),
      write_file name content fs,
    )
    else (none, fs)

-- `_taken`
unfoldable pub taken_of : List RecordedFile → List Text
taken_of [] = reserved
taken_of (f ∷ fs) = elim (f.saved_as) [
  | none ↦ taken_of fs
  | some name ↦ if non_empty name then lower name ∷ taken_of fs else taken_of fs
]
