-- ===== src/Documents/Loader/Kept.antt =====
-- No file is lost without a word: each one has its document, and each document that could not be read
-- says why.
use rfq_workflow_agent.Base.{
  ℕ, zero, suc, Bool, true, false, not, Option, none, some, List, [], ◌∷◌, ◌≡◌, refl, ◌∙◌, arith,
  Bool-cases, Option-cases, inl, inr, map, filter, All, All-append,
}
use rfq_workflow_agent.Base.Text.{Text, txt}
use rfq_workflow_agent.Documents.Models.{Bytes, SourceFile, Document, origin_of, warn}
use rfq_workflow_agent.Documents.Budget.{Budget, Tracker, may_open}
use rfq_workflow_agent.Documents.Loader.{
  Readers, FileReading, child_of, children, expand, expand_archive, expand_email, read_opened,
  warn_all, cut_text, apply_caps, read_with, read_bytes, read_admitted, read_file, read_all,
  is_archive, is_email, is_zip, is_eml, is_signature_image, has_entries, new_document,
}
use rfq_workflow_agent.Documents.Loader.Follows.{
  KeepsPlace, top_name, tops, told, append_nil, tops-append, Follows, Follows-refl, Follows-trans,
  warn-Follows, warn_all-Follows, cut_text-Follows,
}

module _ (r : Readers) (b : Budget) (kept : KeepsPlace r) where
  pub Follows-told : (d e : Document) → Follows d e → told r d ≡ true → told r e ≡ true
  Follows-told d e (name, kind, parent, says) h = rw kind (ground (arith, says, h))

  -- A list of documents that stands for one file: it lists the name, if it came with the email, and
  -- tells of every document.
  abbrev Stands : Option Text → Text → List Document → Type 0
  Stands parent name ds = (tops ds ≡ top_name parent name) × All (λ d. told r d ≡ true) ds

  abbrev Lists : FileReading → Type 0
  Lists rd =
      (source : SourceFile) (parent : Option Text) (t : Tracker)
      → Stands parent source.filename (rd source parent t).0

  abbrev BelowLists : Option FileReading → Type 0
  BelowLists none = Unit
  BelowLists (some rd) = Lists rd

  -- A document that follows one of its place stands for it, with documents of its own inside.
  Stands-cons :
      (d e : Document) (inner : List Document)
      → Follows d e
      → told r e ≡ true
      → tops inner ≡ []
      → All (λ x. told r x ≡ true) inner
      → Stands d.parent d.filename (e ∷ inner)
  Stands-cons d e inner (name, kind, parent, says) told_e none_top told_inner = (
    rw (name, parent, none_top) (append_nil (top_name d.parent d.filename)),
    (told_e, told_inner),
  )

  Stands-warn : (code : Text) (d : Document) → Stands d.parent d.filename (warn code d ∷ [])
  Stands-warn code d =
      let (f, says) = warn-Follows code d in Stands-cons d (warn code d) [] f (rw says refl) refl tt

  children-Lists :
      (rd : FileReading) (entries : List (Text × Bytes)) (parent : Text) (t : Tracker)
      → Lists rd
      → (tops (children rd entries parent t).0 ≡ [])
        × All (λ x. told r x ≡ true) (children rd entries parent t).0
  unfolding children
  children-Lists rd [] parent t k = (refl, tt)
  children-Lists rd (e ∷ entries) parent t k =
      let (top, all_told) = k (child_of e) (some parent) t in
      let t1 = (rd (child_of e) (some parent) t).1 in
      let first = (rd (child_of e) (some parent) t).0 in
      let rest = (children rd entries parent t1).0 in
      let (tops_rest, told_rest) = children-Lists rd entries parent t1 k in
      (
        tops-append first rest ∙ (rw (top, tops_rest) refl),
        All-append (λ x. told r x ≡ true) first rest all_told told_rest,
      )

  expand-Lists :
      (below : Option FileReading) (too_deep : Bool) (entries : List (Text × Bytes))
      (d e : Document) (t : Tracker)
      → BelowLists below
      → Follows d e
      → told r e ≡ true
      → Stands d.parent d.filename (expand below too_deep entries e t).0
  unfolding expand
  expand-Lists none true entries d e t k f h =
      let (g, says) = warn-Follows (txt "nested_too_deep") e in
      Stands-cons d (warn (txt "nested_too_deep") e) []
        (Follows-trans d e (warn (txt "nested_too_deep") e) f g) (rw says refl) refl tt
  expand-Lists none false entries d e t k f h = Stands-cons d e [] f h refl tt
  expand-Lists (some rd) too_deep entries d e t k f h =
      let (top, all_told) = children-Lists rd entries (origin_of e) t k in
      Stands-cons d e _ f h top all_told

  expand_archive-Lists :
      (below : Option FileReading) (d : Document) (content : Bytes) (t : Tracker)
      → BelowLists below
      → told r d ≡ true
      → Stands d.parent d.filename (expand_archive r b below d content t).0
  unfolding expand_archive
  expand_archive-Lists none d content t k h = expand-Lists none true [] d d t k (Follows-refl d) h
  expand_archive-Lists (some rd) d content t k h =
      let opened = r.unpack content (is_zip d.kind) in
      let e = warn_all opened.1 d in
      let f = warn_all-Follows opened.1 d in
      expand-Lists (some rd) true opened.0 d e t k f (Follows-told d e f h)

  email-Lists :
      (below : Option FileReading) (d : Document) (content : Bytes) (t : Tracker)
      → BelowLists below
      → told r d ≡ true
      → Stands d.parent d.filename (expand_email r b below d content t).0
  unfolding expand_email
  email-Lists below d content t k h =
      let opened = r.unpack_email content (is_eml d.kind) in
      let body = cut_text b opened.0 d in
      let e = warn_all opened.1.1 body in
      let f =
        Follows-trans d body e (cut_text-Follows b opened.0 d) (warn_all-Follows opened.1.1 body) in
      expand-Lists below (has_entries opened.1.0) opened.1.0 d e t k f (Follows-told d e f h)

  read_opened-Lists :
      (below : Option FileReading) (source : SourceFile) (content : Bytes) (blank : Document)
      (t : Tracker)
      → BelowLists below
      → Stands blank.parent blank.filename (read_opened r b below source content blank t).0
  unfolding read_opened apply_caps
  read_opened-Lists below source content blank t k =
      let kind = r.sniff content source.filename source.content_type in
      let d = record blank { kind = kind } in
      elim (Bool-cases (is_archive kind)) [
        | inl a ↦ rw a (expand_archive-Lists below d content t k (ground (arith, a)))
        | inr na ↦ elim (Bool-cases (is_email kind)) [
          | inl e ↦ rw (na, e) (email-Lists below d content t k (ground (arith, e)))
          | inr ne ↦ elim (Option-cases (r.reader kind)) [
            | inl no' ↦ rw (na, ne, no') (Stands-warn (txt "no_reader_for_kind") d)
            | inr (f, h) ↦
                let done = f d content in
                let follows = kept.keeps kind f d content h in
                let readable : told r done ≡ true = rw (follows.1, h) (ground arith) in
                let cut = cut_text-Follows b done.text done in
                rw (na, ne, h)
                  (Stands-cons d (cut_text b done.text done) []
                    (Follows-trans d done (cut_text b done.text done) follows cut)
                    (Follows-told done (cut_text b done.text done) cut readable) refl tt)
          ]
        ]
      ]

  read_admitted-Lists :
      (below : Option FileReading) (source : SourceFile) (content : Bytes) (d : Document)
      (blocked : Option Text) (t : Tracker)
      → BelowLists below
      → Stands d.parent d.filename (read_admitted r b below source content d blocked t).0
  unfolding read_admitted
  read_admitted-Lists below source content d (some code) t k = Stands-warn code d
  read_admitted-Lists below source content d none t k = read_opened-Lists below source content d t k

  read_bytes-Lists :
      (below : Option FileReading) (source : SourceFile) (d : Document) (content : Option Bytes)
      (t : Tracker)
      → BelowLists below
      → Stands d.parent d.filename (read_bytes r b below source d content t).0
  unfolding read_bytes
  read_bytes-Lists below source d none t k = Stands-warn (txt "attachment_has_no_bytes") d
  read_bytes-Lists below source d (some []) t k = Stands-warn (txt "attachment_has_no_bytes") d
  read_bytes-Lists below source d (some (c ∷ content)) t k =
      read_admitted-Lists below source (c ∷ content) d (may_open b d.size_bytes t).0
        (may_open b d.size_bytes t).1 k

  read_with-Lists : (below : Option FileReading) → BelowLists below → Lists (read_with r b below)
  unfolding read_with new_document
  read_with-Lists below k source parent t = elim (Bool-cases source.is_reference) [
    | inl link ↦ simp link (Stands-warn (txt "attachment_is_a_link") (new_document source parent))
    | inr file ↦
        simp file (read_bytes-Lists below source (new_document source parent) source.content t k)
  ]

  read_file-Lists : (left : ℕ) → Lists (read_file r b left)
  unfolding read_file
  read_file-Lists zero = read_with-Lists none tt
  read_file-Lists (suc left) = read_with-Lists (some (read_file r b left)) (read_file-Lists left)

  abbrev pub attached : List SourceFile → List Text
  attached files = map (λ f. f.filename) (filter (λ f. not (is_signature_image b f)) files)

  pub read_all-Lists :
      (files : List SourceFile) (t : Tracker)
      → (tops (read_all r b files t).0 ≡ attached files)
        × All (λ d. told r d ≡ true) (read_all r b files t).0
  unfolding read_all
  read_all-Lists [] t = (refl, tt)
  read_all-Lists (source ∷ files) t = elim (Bool-cases (is_signature_image b source)) [
    | inl logo ↦ rw logo (read_all-Lists files t)
    | inr file ↦
        let (top, all_told) = read_file-Lists b.max_archive_depth source none t in
        let first = (read_file r b b.max_archive_depth source none t).0 in
        let t1 = (read_file r b b.max_archive_depth source none t).1 in
        let (tops_rest, told_rest) = read_all-Lists files t1 in
        rw file (
          (
            tops-append first (read_all r b files t1).0 ∙ (rw (top, tops_rest) refl),
            All-append (λ x. told r x ≡ true) first (read_all r b files t1).0 all_told told_rest,
          ))
  ]
