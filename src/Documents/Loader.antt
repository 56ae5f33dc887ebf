-- ===== src/Documents/Loader.antt =====
-- `DocumentLoader` of src/infrastructure/documents/loader.py: the files of one email become
-- documents. The recursion into archives and attached emails is on the levels that are left,
-- `max_archive_depth` less the depth: none are left where the code finds `depth >= max_archive_depth`.
pub mod Follows
pub mod Kept
pub mod Complete
pub mod Opened
pub mod Spent
pub mod Totals
use rfq_workflow_agent.Base.{
  ℕ, zero, suc, ◌+◌, Bool, true, false, ◌&&◌, not, Option, none, some, List, [], ◌∷◌, ◌++◌,
  if◌then◌else◌, leb, length, or_else,
}
use rfq_workflow_agent.Base.Text.{Text, txt}
use rfq_workflow_agent.Documents.Models.{Bytes, SourceFile, FileKind, Document, origin_of, warn}
use rfq_workflow_agent.Documents.Budget.{Budget, Tracker, new_tracker, may_open, truncate}
use rfq_workflow_agent.Documents.Images.{fit_images}

-- The parsers of single files: `sniff`, the table `_READERS`, `archive.unpack`, `unpack_eml` and
-- `unpack_msg`. A reader fills in the document it is given.
pub record Readers : Type 0 where
  pub sniff : Bytes → Text → Option Text → FileKind
  pub reader : FileKind → Option (Document → Bytes → Document)
  pub unpack : Bytes → (is_zip : Bool) → List (Text × Bytes) × List Text
  pub unpack_email : Bytes → (is_eml : Bool) → Text × (List (Text × Bytes) × List Text)

abbrev pub is_archive : FileKind → Bool
is_archive FileKind.zip = true
is_archive FileKind.seven_zip = true
is_archive _ = false

abbrev pub is_email : FileKind → Bool
is_email FileKind.eml = true
is_email FileKind.msg = true
is_email _ = false

abbrev pub is_zip : FileKind → Bool
is_zip FileKind.zip = true
is_zip _ = false

abbrev pub is_eml : FileKind → Bool
is_eml FileKind.eml = true
is_eml _ = false

-- `source.size_bytes or len(source.data or b"")`
unfoldable pub size_of : SourceFile → ℕ
size_of source = elim (source.size_bytes) [
  | zero ↦ elim (source.content) [ none ↦ 0 | some b ↦ length b ]
  | suc n ↦ suc n
]

-- The document of a file before anything has been read.
unfoldable pub new_document : SourceFile → Option Text → Document
new_document source parent = record {
  filename = source.filename;
  kind = FileKind.unknown;
  size_bytes = size_of source;
  declared_content_type = source.content_type;
  text = [];
  grids = [];
  pages = [];
  images = [];
  warnings = [];
  truncated = false;
  parent = parent;
}

unfoldable pub warn_all : List Text → Document → Document
warn_all [] d = d
warn_all (c ∷ codes) d = warn_all codes (warn c d)

unfoldable pub cut_text : Budget → Text → Document → Document
cut_text b text d =
    let (kept, cut) = truncate text b.max_chars_per_document in
    if cut
    then record (warn (txt "text_truncated") (record d { text = kept })) { truncated = true }
    else record d { text = kept }

-- `_apply_caps`
unfoldable pub apply_caps : Budget → Document → Document
apply_caps b d = cut_text b d.text d

-- `_is_signature_image`
unfoldable pub is_signature_image : Budget → SourceFile → Bool
is_signature_image b source = source.is_inline && leb (size_of source) b.inline_noise_bytes

abbrev pub child_of : Text × Bytes → SourceFile
child_of (name, payload) = record {
  filename = name;
  content = some payload;
  content_type = none;
  size_bytes = length payload;
  is_inline = false;
  is_reference = false;
}

-- FileReading one file: the documents it gives, and the totals after it.
abbrev pub FileReading : Type 0
FileReading = SourceFile → Option Text → Tracker → List Document × Tracker

-- `_children`, with what reads one file of the next level.
unfoldable pub children :
    FileReading → List (Text × Bytes) → Text → Tracker → List Document × Tracker
children read_one [] parent t = ([], t)
children read_one (e ∷ entries) parent t =
    let (first, t1) = read_one (child_of e) (some parent) t in
    let (rest, t2) = children read_one entries parent t1 in (first ++ rest, t2)

-- What an opened container gives: its own document, and those of its entries. `below` is what reads a
-- file of the next level, if any level is left.
unfoldable pub expand :
    Option FileReading
    → (too_deep : Bool) → List (Text × Bytes)
    → Document
    → Tracker
    → List Document × Tracker
expand none too_deep entries d t =
    ((if too_deep then warn (txt "nested_too_deep") d else d) ∷ [], t)
expand (some below) too_deep entries d t =
    let (inner, t1) = children below entries (origin_of d) t in (d ∷ inner, t1)

abbrev pub has_entries : List (Text × Bytes) → Bool
has_entries [] = false
has_entries (e ∷ entries) = true

module _ (r : Readers) (b : Budget) where
  -- `_expand_archive`, which does not unpack an archive that lies too deep.
  unfoldable pub expand_archive :
      Option FileReading → Document → Bytes → Tracker → List Document × Tracker
  expand_archive none d content t = expand none true [] d t
  expand_archive (some below) d content t =
      let (entries, codes) = r.unpack content (is_zip d.kind) in
      expand (some below) true entries (warn_all codes d) t

  -- `_expand_email`, which keeps the text of an email that lies too deep.
  unfoldable pub expand_email :
      Option FileReading → Document → Bytes → Tracker → List Document × Tracker
  expand_email below d content t =
      let (body, (entries, codes)) = r.unpack_email content (is_eml d.kind) in
      expand below (has_entries entries) entries (warn_all codes (cut_text b body d)) t

  -- The part of `_read` behind the budget.
  unfoldable pub read_opened :
      Option FileReading → SourceFile → Bytes → Document → Tracker → List Document × Tracker
  read_opened below source content blank t =
      let kind = r.sniff content source.filename source.content_type in
      let d = record blank { kind = kind } in
      if is_archive kind
      then expand_archive below d content t
      else if is_email kind
      then expand_email below d content t
      else elim (r.reader kind) [
        | none ↦ (warn (txt "no_reader_for_kind") d ∷ [], t)
        | some reader ↦ (apply_caps b (reader d content) ∷ [], t)
      ]

  -- The test of the code that blocks a file.
  unfoldable pub read_admitted :
      Option FileReading
      → SourceFile
      → Bytes
      → Document
      → Option Text
      → Tracker
      → List Document × Tracker
  read_admitted below source content d (some code) t = (warn code d ∷ [], t)
  read_admitted below source content d none t = read_opened below source content d t

  -- The test for bytes, and the question to the budget.
  unfoldable pub read_bytes :
      Option FileReading → SourceFile → Document → Option Bytes → Tracker → List Document × Tracker
  read_bytes below source d none t = (warn (txt "attachment_has_no_bytes") d ∷ [], t)
  read_bytes below source d (some []) t = (warn (txt "attachment_has_no_bytes") d ∷ [], t)
  read_bytes below source d (some (c ∷ content)) t =
      let (blocked, t1) = may_open b d.size_bytes t in
      read_admitted below source (c ∷ content) d blocked t1

  -- `_read`, with what reads a file of the next level.
  unfoldable pub read_with : Option FileReading → FileReading
  read_with below source parent t =
      let d = new_document source parent in
      if source.is_reference
      then (warn (txt "attachment_is_a_link") d ∷ [], t)
      else read_bytes below source d source.content t

  -- `_read`, with the levels that are left.
  unfoldable pub read_file : ℕ → FileReading
  read_file zero = read_with none
  read_file (suc left) = read_with (some (read_file left))

  -- The loop of `load`.
  unfoldable pub read_all : List SourceFile → Tracker → List Document × Tracker
  read_all [] t = ([], t)
  read_all (source ∷ files) t =
      if is_signature_image b source
      then read_all files t
      else let (first, t1) = read_file b.max_archive_depth source none t in
        let (rest, t2) = read_all files t1 in (first ++ rest, t2)

  -- `load`
  unfoldable pub load : List SourceFile → List Document
  load files = fit_images b.max_images (read_all files new_tracker).0
