-- ===== src/Documents/Loader/Spent.antt =====
-- Each file that is read pays for itself and for what is opened inside it.
use rfq_workflow_agent.Base.{
  ℕ, zero, suc, ◌+◌, ◌≤◌, ◌==◌, Option, none, some, List, [], ◌∷◌, ◌≡◌, refl, ◌∙◌, arith,
  Bool-cases, inl, inr, All, if_cases, leb, ltb, take,
}
use rfq_workflow_agent.Base.Text.{Text, txt}
use rfq_workflow_agent.Documents.Models.{Bytes, FileKind, SourceFile, Document, warn}
use rfq_workflow_agent.Documents.Budget.{Budget, Tracker, may_open}
use rfq_workflow_agent.Documents.Images.{
  image_count, cut_images, spread, fit_images, allocate, wanted_of, total_of,
}
use rfq_workflow_agent.Documents.Loader.{
  Readers, FileReading, read_with, read_bytes, read_admitted, read_file, read_all,
  is_signature_image, new_document,
}
use rfq_workflow_agent.Documents.Loader.Opened.{
  opened_size, opened_count, opened_bytes, Like, warn-Like, KeepsSize, Spent, Spends, BelowSpends,
  Spent-none, Spent-append, read_opened-Opened,
}

-- What `may_open` counts, by whether it blocks the file.
abbrev IsCharged : Budget → ℕ → Tracker → Option Text × Tracker → Type 0
IsCharged b size t (none, u) =
    (u.attachments_seen ≡ t.attachments_seen + 1)
    × (u.bytes_seen ≡ t.bytes_seen + size)
    × (size ≤ b.max_single_bytes)
IsCharged b size t (some code, u) =
    (t.attachments_seen ≤ u.attachments_seen) × (t.bytes_seen ≤ u.bytes_seen)

may_open-IsCharged : (b : Budget) (size : ℕ) (t : Tracker) → IsCharged b size t (may_open b size t)
unfolding may_open
may_open-IsCharged b size t = ground arith

module _ (r : Readers) (b : Budget) (kept : KeepsSize r) where
  -- A document that is only warned about was not opened.
  Spent-warn :
      (code : Text) (d : Document) (t u : Tracker)
      → d.kind ≡ FileKind.unknown
      → (t.attachments_seen ≤ u.attachments_seen) × (t.bytes_seen ≤ u.bytes_seen)
      → Spent r b kept t (warn code d ∷ []) u
  Spent-warn code d t u unread (a, c) =
      let kind : (warn code d).kind ≡ FileKind.unknown = (warn-Like code d).0 ∙ unread in
      rw kind ((omega (arith, a), omega (arith, c), (omega arith, tt)))

  read_admitted-Spent :
      (below : Option FileReading) (source : SourceFile) (content : Bytes) (d : Document)
      (t : Tracker) (x : Option Text × Tracker)
      → BelowSpends r b kept below
      → d.kind ≡ FileKind.unknown
      → IsCharged b d.size_bytes t x
      → Spent r b kept t
          (read_admitted r b below source content d x.0 x.1).0
          (read_admitted r b below source content d x.0 x.1).1
  unfolding read_admitted
  read_admitted-Spent below source content d t (some code, u) k unread paid =
      Spent-warn code d t u unread paid
  read_admitted-Spent below source content d t (none, u) k unread (a, c, small) =
      let (one, cost, all_small) =
        read_opened-Opened r b kept d.size_bytes below source content d u k refl small in
      (omega (arith, one, a), omega (arith, cost, c), all_small)

  read_bytes-Spent :
      (below : Option FileReading) (source : SourceFile) (d : Document) (content : Option Bytes)
      (t : Tracker)
      → BelowSpends r b kept below
      → d.kind ≡ FileKind.unknown
      → Spent r b kept t
          (read_bytes r b below source d content t).0
          (read_bytes r b below source d content t).1
  unfolding read_bytes
  read_bytes-Spent below source d none t k unread =
      Spent-warn _ d t t unread (omega arith, omega arith)
  read_bytes-Spent below source d (some []) t k unread =
      Spent-warn _ d t t unread (omega arith, omega arith)
  read_bytes-Spent below source d (some (c ∷ content)) t k unread =
      read_admitted-Spent below source (c ∷ content) d t (may_open b d.size_bytes t) k unread
        (may_open-IsCharged b d.size_bytes t)

  read_with-Spent :
      (below : Option FileReading)
      → BelowSpends r b kept below
      → Spends r b kept (read_with r b below)
  unfolding read_with new_document
  read_with-Spent below k source parent t =
      if_cases (λ (x : List Document × Tracker). Spent r b kept t x.0 x.1) source.is_reference
        (λ _. Spent-warn _ (new_document source parent) t t refl (omega arith, omega arith))
        (λ _. read_bytes-Spent below source (new_document source parent) source.content t k refl)

  read_file-Spent : (left : ℕ) → Spends r b kept (read_file r b left)
  unfolding read_file
  read_file-Spent zero = read_with-Spent none tt
  read_file-Spent (suc left) = read_with-Spent (some (read_file r b left)) (read_file-Spent left)

  pub read_all-Spent :
      (files : List SourceFile) (t : Tracker)
      → Spent r b kept t (read_all r b files t).0 (read_all r b files t).1
  unfolding read_all
  read_all-Spent [] t = Spent-none r b kept t
  read_all-Spent (source ∷ files) t = elim (Bool-cases (is_signature_image b source)) [
    | inl logo ↦ rw logo (read_all-Spent files t)
    | inr file ↦
        let u = (read_file r b b.max_archive_depth source none t).1 in
        rw file (
          Spent-append r b kept t u (read_all r b files u).1 _ _
            (read_file-Spent b.max_archive_depth source none t) (read_all-Spent files u))
  ]

-- The images that are left out change neither kind nor size.
cut_images-Like : (allowed : ℕ) (d : Document) → Like d (cut_images allowed d)
unfolding cut_images
cut_images-Like allowed d =
    if_cases (λ (e : Document). Like d e) (ltb allowed (image_count d))
      (λ _. warn-Like (txt "images_truncated") (record d { images = take allowed d.images }))
      (λ _. (refl, refl))

-- What was opened among some documents, and that none of it is too large.
abbrev pub SameOpened : ℕ → List Document → List Document → Type 0
SameOpened limit ds es =
    (opened_count es ≡ opened_count ds)
    × (opened_bytes es ≡ opened_bytes ds)
    × (All (λ d. opened_size d ≤ limit) ds → All (λ d. opened_size d ≤ limit) es)

SameOpened-cons :
    (limit : ℕ) (d e : Document) (ds es : List Document)
    → Like d e
    → SameOpened limit ds es
    → SameOpened limit (d ∷ ds) (e ∷ es)
SameOpened-cons limit d e ds es (kind, size) (a, c, h) =
    rw (kind, size, a, c) ((refl, refl, λ k. (k.0, h k.1)))

spread-SameOpened :
    (limit : ℕ) (allowed : List ℕ) (ds : List Document) → SameOpened limit ds (spread allowed ds)
unfolding spread
spread-SameOpened limit [] ds = (refl, refl, λ h. h)
spread-SameOpened limit (a ∷ allowed) [] = (refl, refl, λ h. h)
spread-SameOpened limit (a ∷ allowed) (d ∷ ds) =
    if_cases (λ (es : List Document). SameOpened limit (d ∷ ds) es) (image_count d == 0)
      (λ _. SameOpened-cons limit d d ds _ (refl, refl) (spread-SameOpened limit (a ∷ allowed) ds))
      (λ _.
        SameOpened-cons limit d (cut_images a d) ds _ (cut_images-Like a d)
          (spread-SameOpened limit allowed ds))

pub fit_images-SameOpened :
    (limit max_images : ℕ) (ds : List Document) → SameOpened limit ds (fit_images max_images ds)
unfolding fit_images
fit_images-SameOpened limit max_images ds =
    if_cases (λ (es : List Document). SameOpened limit ds es)
      (leb (total_of (wanted_of ds)) max_images) (λ _. (refl, refl, λ h. h))
      (λ _. spread-SameOpened limit (allocate (wanted_of ds) max_images) ds)
