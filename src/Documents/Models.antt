-- ===== src/Documents/Models.antt =====
-- src/infrastructure/documents/models.py, and `SourceFile` of loader.py.
use rfq_workflow_agent.Base.{ℕ, Bool, Option, none, some, List, [], ◌∷◌, ◌++◌, if◌then◌else◌}
use rfq_workflow_agent.Base.Text.{Text, txt, member, non_empty}

abbrev pub Bytes : Type 0
Bytes = List ℕ

-- `content` is the field `data`.
pub record SourceFile : Type 0 where
  pub filename : Text
  pub content : Option Bytes
  pub content_type : Option Text
  pub size_bytes : ℕ
  pub is_inline : Bool
  pub is_reference : Bool

pub data FileKind : Type 0 where
  xlsx : FileKind
  xls : FileKind
  csv : FileKind
  pdf : FileKind
  docx : FileKind
  doc : FileKind
  pptx : FileKind
  image : FileKind
  plain_text : FileKind
  html : FileKind
  eml : FileKind
  msg : FileKind
  zip : FileKind
  seven_zip : FileKind
  unknown : FileKind

pub record Grid : Type 0 where
  pub origin : Text
  pub rows : List (List (Option Text))
  pub name : Option Text

pub record Page : Type 0 where
  pub origin : Text
  pub number : ℕ
  pub text : Text
  pub tables : List Grid

pub record ImageRef : Type 0 where
  pub origin : Text
  pub media_type : Text
  pub content : Bytes
  pub width : ℕ
  pub height : ℕ

pub record Document : Type 0 where
  pub filename : Text
  pub kind : FileKind
  pub size_bytes : ℕ
  pub declared_content_type : Option Text
  pub text : Text
  pub grids : List Grid
  pub pages : List Page
  pub images : List ImageRef
  pub warnings : List Text
  pub truncated : Bool
  pub parent : Option Text

-- `Document.origin`
unfoldable pub origin_of : Document → Text
origin_of d = elim (d.parent) [
  | none ↦ d.filename
  | some p ↦ if non_empty p then p ++ (txt " > " ++ d.filename) else d.filename
]

-- `Document.warn`
unfoldable pub warn : Text → Document → Document
warn code d = if member code d.warnings then d else record d { warnings = d.warnings ++ code ∷ [] }
