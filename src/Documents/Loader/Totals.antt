-- ===== src/Documents/Loader/Totals.antt =====
-- The totals of one email stay within its budget, however deep its archives lie.
use rfq_workflow_agent.Base.{
  ℕ, zero, suc, Bool, true, Option, none, some, List, [], ◌∷◌, arith, Bool-cases, Option-cases, inl,
  inr, ◌≤◌, All,
}
use rfq_workflow_agent.Base.Text.{Text}
use rfq_workflow_agent.Documents.Models.{Bytes, SourceFile, Document, origin_of}
use rfq_workflow_agent.Documents.Budget.{Budget, Tracker, new_tracker, may_open}
use rfq_workflow_agent.Documents.Budget.Bounds.{Within, may_open_iff}
use rfq_workflow_agent.Documents.Images.Shares.{images_of, fit_images_sum}
use rfq_workflow_agent.Documents.Loader.{
  Readers, FileReading, child_of, children, expand, expand_archive, expand_email, read_opened,
  read_with, read_bytes, read_admitted, read_file, read_all, load, is_archive, is_email,
  is_signature_image,
}
use rfq_workflow_agent.Documents.Loader.Opened.{KeepsSize, opened_count, opened_bytes, opened_size}
use rfq_workflow_agent.Documents.Loader.Spent.{read_all-Spent, fit_images-SameOpened}

module _ (r : Readers) (b : Budget) where
  abbrev StaysWithin : FileReading → Type 0
  StaysWithin rd =
      (source : SourceFile) (parent : Option Text) (t : Tracker)
      → Within b t
      → Within b (rd source parent t).1

  abbrev BelowWithin : Option FileReading → Type 0
  BelowWithin none = Unit
  BelowWithin (some rd) = StaysWithin rd

  children-Within :
      (rd : FileReading) (entries : List (Text × Bytes)) (parent : Text) (t : Tracker)
      → StaysWithin rd
      → Within b t
      → Within b (children rd entries parent t).1
  unfolding children
  children-Within rd [] parent t k w = w
  children-Within rd (e ∷ entries) parent t k w =
      children-Within rd entries parent _ k (k (child_of e) (some parent) t w)

  expand-Within :
      (below : Option FileReading) (too_deep : Bool) (entries : List (Text × Bytes)) (d : Document)
      (t : Tracker)
      → BelowWithin below
      → Within b t
      → Within b (expand below too_deep entries d t).1
  unfolding expand
  expand-Within none too_deep entries d t k w = w
  expand-Within (some rd) too_deep entries d t k w = children-Within rd entries (origin_of d) t k w

  expand_archive-Within :
      (below : Option FileReading) (d : Document) (content : Bytes) (t : Tracker)
      → BelowWithin below
      → Within b t
      → Within b (expand_archive r b below d content t).1
  unfolding expand_archive
  expand_archive-Within none d content t k w = expand-Within none true [] d t k w
  expand_archive-Within (some rd) d content t k w = expand-Within (some rd) true _ _ t k w

  read_opened-Within :
      (below : Option FileReading) (source : SourceFile) (content : Bytes) (d : Document)
      (t : Tracker)
      → BelowWithin below
      → Within b t
      → Within b (read_opened r b below source content d t).1
  unfolding read_opened expand_email
  read_opened-Within below source content d t k w =
      let kind = r.sniff content source.filename source.content_type in
      elim (Bool-cases (is_archive kind)) [
        | inl a ↦ rw a (expand_archive-Within below _ content t k w)
        | inr na ↦ elim (Bool-cases (is_email kind)) [
          | inl e ↦ rw (na, e) (expand-Within below _ _ _ t k w)
          | inr ne ↦ elim (Option-cases (r.reader kind)) [
            | inl no' ↦ rw (na, ne, no') w
            | inr (f, h) ↦ rw (na, ne, h) w
          ]
        ]
      ]

  read_admitted-Within :
      (below : Option FileReading) (source : SourceFile) (content : Bytes) (d : Document)
      (blocked : Option Text) (t : Tracker)
      → BelowWithin below
      → Within b t
      → Within b (read_admitted r b below source content d blocked t).1
  unfolding read_admitted
  read_admitted-Within below source content d (some code) t k w = w
  read_admitted-Within below source content d none t k w =
      read_opened-Within below source content d t k w

  read_bytes-Within :
      (below : Option FileReading) (source : SourceFile) (d : Document) (content : Option Bytes)
      (t : Tracker)
      → BelowWithin below
      → Within b t
      → Within b (read_bytes r b below source d content t).1
  unfolding read_bytes
  read_bytes-Within below source d none t k w = w
  read_bytes-Within below source d (some []) t k w = w
  read_bytes-Within below source d (some (c ∷ content)) t k w =
      read_admitted-Within below source (c ∷ content) d (may_open b d.size_bytes t).0
        (may_open b d.size_bytes t).1 k (may_open_iff b d.size_bytes t w).1

  read_with-Within :
      (below : Option FileReading) → BelowWithin below → StaysWithin (read_with r b below)
  unfolding read_with
  read_with-Within below k source parent t w = elim (Bool-cases source.is_reference) [
    | inl link ↦ simp link w
    | inr file ↦ simp file (read_bytes-Within below source _ source.content t k w)
  ]

  read_file-Within : (left : ℕ) → StaysWithin (read_file r b left)
  unfolding read_file
  read_file-Within zero = read_with-Within none tt
  read_file-Within (suc left) = read_with-Within (some (read_file r b left)) (read_file-Within left)

  read_all-Within :
      (files : List SourceFile) (t : Tracker) → Within b t → Within b (read_all r b files t).1
  unfolding read_all
  read_all-Within [] t w = w
  read_all-Within (source ∷ files) t w = elim (Bool-cases (is_signature_image b source)) [
    | inl logo ↦ rw logo (read_all-Within files t w)
    | inr file ↦
        rw file (read_all-Within files _ (read_file-Within b.max_archive_depth source none t w))
  ]

  -- Where the readers of single files leave the size of a document alone: however the files of an
  -- email are packed, among its documents, those of the entries of archives and attached emails too, no
  -- more are opened than the budget allows files, and their sizes together are no more than it allows
  -- bytes; none of them is larger than it allows one file; and all documents together carry no more
  -- images than it allows. The totals that the loader keeps stay within the budget too.
  pub load-Within :
      KeepsSize r
      → (files : List SourceFile)
      → (opened_count (load r b files) ≤ b.max_attachments)
        × (opened_bytes (load r b files) ≤ b.max_total_bytes)
        × All (λ d. opened_size d ≤ b.max_single_bytes) (load r b files)
        × (images_of (load r b files) ≤ b.max_images)
        × Within b (read_all r b files new_tracker).1
  unfolding load
  load-Within kept files =
      let ds = (read_all r b files new_tracker).0 in
      let (some_files, some_bytes) = read_all-Within files new_tracker (omega arith, omega arith) in
      let (one, cost, small) = read_all-Spent r b kept files new_tracker in
      let (count, size, all_small) = fit_images-SameOpened b.max_single_bytes b.max_images ds in
      (
        omega (arith, count, one, some_files),
        omega (arith, size, cost, some_bytes),
        all_small small,
        omega (arith, fit_images_sum b.max_images ds),
        (some_files, some_bytes),
      )
