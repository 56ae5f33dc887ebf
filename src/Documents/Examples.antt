-- ===== src/Documents/Examples.antt =====
-- The loader at an email with a table, an archive, a link and a logo.
use rfq_workflow_agent.Base.{
  ◌-◌, ◌*◌, ◌+◌, take, drop, ℕ, ◌^◌, ◌≤◌, ◌<◌, ◌≡◌, ◌≢◌, refl, ap, sym, true, false, Option, none,
  some, List, [], ◌∷◌, ◌++◌, map, length, min, All, arith,
}
use rfq_workflow_agent.Base.Text.{Text, txt}
use rfq_workflow_agent.Base.Digits.{show}
use rfq_workflow_agent.Documents.Models.{
  Bytes, SourceFile, FileKind, Document, ImageRef, warn, origin_of,
}
use rfq_workflow_agent.Documents.Budget.{
  Budget, default_budget, new_tracker, may_open, truncate, head_of, tail_of,
}
use rfq_workflow_agent.Documents.Budget.Bounds.{Within, truncate_bounds}
use rfq_workflow_agent.Documents.Images.{
  total_of, allocate, one_each, hand_out, fit_images, cut_images, spread, wanted_of,
}
use rfq_workflow_agent.Documents.Images.Shares.{Fits, images_of, allocate_sum}
use rfq_workflow_agent.Documents.Loader.{
  Readers, load, read_all, read_file, read_with, read_bytes, read_admitted, read_opened, expand,
  expand_archive, children, apply_caps, cut_text, warn_all, size_of, new_document,
  is_signature_image,
}
use rfq_workflow_agent.Documents.Loader.Follows.{Follows}
use rfq_workflow_agent.Documents.Loader.Opened.{KeepsSize, opened_count, opened_bytes, opened_size}
use rfq_workflow_agent.Documents.Loader.Totals.{load-Within}

abbrev picture : ImageRef
picture = record { origin = []; media_type = []; content = []; width = 1; height = 1 }

abbrev read_picture : Document → Bytes → Document
read_picture d content = record d { images = picture ∷ picture ∷ [] }

-- The first byte tells the kind: 1 is a picture, 2 an archive of two pictures, all else has no reader.
abbrev readers : Readers
readers = record {
  sniff = λ content name declared. elim content [
    | [] ↦ FileKind.unknown
    | c ∷ rest ↦ elim rest [ [] ↦ FileKind.image | _ ∷ _ ↦ FileKind.zip ]
  ];
  reader = λ kind. elim kind [ FileKind.image ↦ some read_picture | _ ↦ none ];
  unpack = λ content is_zip. ((txt "a.png", 1 ∷ []) ∷ (txt "b.zip", 2 ∷ 2 ∷ []) ∷ [], []);
  unpack_email = λ content is_eml. ([], ([], []));
}

abbrev file : Text → Option Bytes → SourceFile
file name content = record {
  filename = name;
  content = content;
  content_type = none;
  size_bytes = 0;
  is_inline = false;
  is_reference = false;
}

abbrev files : List SourceFile
files =
    file (txt "photo.png") (some (1 ∷ []))
    ∷ file (txt "all.zip") (some (2 ∷ 2 ∷ []))
    ∷ record (file (txt "logo.png") (some (1 ∷ []))) { is_inline = true }
    ∷ file (txt "gone.pdf") none
    ∷ []

abbrev small : Budget
small = record default_budget { max_images = 3 }

-- The names, the warnings and the images of the documents: the archive inside the archive is too deep.
loads :
    map {B = Text × List Text × ℕ}
      (λ d. (d.filename, d.warnings, length d.images))
      (load readers small files)
    ≡ (txt "photo.png", [], 2)
      ∷ (txt "all.zip", [], 0)
      ∷ (txt "a.png", txt "images_truncated" ∷ [], 1)
      ∷ (txt "b.zip", txt "nested_too_deep" ∷ [], 0)
      ∷ (txt "gone.pdf", txt "attachment_has_no_bytes" ∷ [], 0)
      ∷ []
unfolding load read_all read_file read_with read_bytes read_admitted read_opened expand_archive
    expand children apply_caps cut_text warn_all size_of new_document is_signature_image fit_images
    cut_images spread wanted_of allocate one_each hand_out warn origin_of truncate may_open
loads = refl

keeps_size :
    (kind : FileKind) (f : Document → Bytes → Document) (d : Document) (content : Bytes)
    → readers.reader kind ≡ some f
    → (f d content).size_bytes ≡ d.size_bytes
keeps_size FileKind.image f d content h =
    let g : f ≡ read_picture = ap (λ o. elim o [ none ↦ read_picture | some x ↦ x ]) (sym h) in
    rw g refl
keeps_size FileKind.xlsx f d content h = cc
keeps_size FileKind.xls f d content h = cc
keeps_size FileKind.csv f d content h = cc
keeps_size FileKind.pdf f d content h = cc
keeps_size FileKind.docx f d content h = cc
keeps_size FileKind.doc f d content h = cc
keeps_size FileKind.pptx f d content h = cc
keeps_size FileKind.plain_text f d content h = cc
keeps_size FileKind.html f d content h = cc
keeps_size FileKind.eml f d content h = cc
keeps_size FileKind.msg f d content h = cc
keeps_size FileKind.zip f d content h = cc
keeps_size FileKind.seven_zip f d content h = cc
keeps_size FileKind.unknown f d content h = cc

readers-KeepsSize : KeepsSize readers
readers-KeepsSize = record { size = λ kind f d content h. keeps_size kind f d content h }

-- The picture, the archive, and the two files in it are opened: four of the five documents.
opens :
    (opened_count (load readers small files) ≡ 4) × (opened_bytes (load readers small files) ≡ 6)
unfolding load read_all read_file read_with read_bytes read_admitted read_opened expand_archive
    expand children apply_caps cut_text warn_all size_of new_document is_signature_image fit_images
    cut_images spread wanted_of allocate one_each hand_out warn origin_of truncate may_open
opens = (refl, refl)

load-Within_example :
    (opened_count (load readers small files) ≤ 20)
    × (opened_bytes (load readers small files) ≤ small.max_total_bytes)
    × All (λ d. opened_size d ≤ small.max_single_bytes) (load readers small files)
    × (images_of (load readers small files) ≤ 3)
    × Within small (read_all readers small files new_tracker).1
load-Within_example = load-Within readers small readers-KeepsSize files

shares : allocate (18 ∷ 1 ∷ 2 ∷ []) 10 ≡ 7 ∷ 1 ∷ 2 ∷ []
unfolding allocate hand_out one_each
shares = refl

positive : (n : ℕ) → 1 ≤ n + 1
positive n = omega arith

no_list : ◌≢◌ {A = List ℕ} (18 ∷ 1 ∷ 2 ∷ []) []
no_list = λ e. cc

allocate_sum_example :
    Fits (allocate (18 ∷ 1 ∷ 2 ∷ []) 10) (18 ∷ 1 ∷ 2 ∷ [])
    × (total_of (allocate (18 ∷ 1 ∷ 2 ∷ []) 10) ≡ min 10 21)
allocate_sum_example =
    allocate_sum (18 ∷ 1 ∷ 2 ∷ []) 10 (positive 17, (positive 0, (positive 1, tt))) no_list

new-Within : Within default_budget new_tracker
new-Within = (omega arith, omega arith)

abbrev long_text : Text
long_text = txt "0123456789012345678901234567890123456789012345678901234567890123456789"

low_enough : 66 ≤ 66
low_enough = omega arith

short_enough : length long_text < 10 ^ 31
short_enough = omega arith

truncate_bounds_example :
    (length long_text ≤ 66 → truncate long_text 66 ≡ (long_text, false))
    × (66 < length long_text
        → (truncate long_text 66).1 ≡ true
          × (length (truncate long_text 66).0 ≤ 66)
          × ((keep : ℕ) × (between : Text) × ((truncate long_text 66).0
                ≡ take keep long_text ++ (between ++ drop (length long_text - keep) long_text))
              × (66 ≤ 2 * keep + 65)
              × (length between ≤ 64)))
truncate_bounds_example = truncate_bounds long_text 66 low_enough short_enough

-- With a limit of 64 nothing is to be kept, and `text[-0:]` is the whole text: the cut text is longer.
longer_than_before :
    (truncate long_text 64).0 ≡ txt "\n\n[... 70 characters omitted ...]\n\n" ++ long_text
unfolding truncate head_of tail_of show
longer_than_before = refl
