-- ===== src/Documents/Loader/Opened.antt =====
-- The documents whose bytes were opened, against the totals that `may_open` keeps.
use rfq_workflow_agent.Base.{
  ℕ, ◌+◌, ◌≤◌, Bool, true, false, Option, none, some, List, [], ◌∷◌, ◌++◌, ◌≡◌, refl, ◌∙◌, arith,
  Option-cases, inl, inr, All, All-append, if◌then◌else◌, if_cases,
}
use rfq_workflow_agent.Base.Text.{Text, txt, member}
use rfq_workflow_agent.Documents.Models.{Bytes, FileKind, SourceFile, Document, origin_of, warn}
use rfq_workflow_agent.Documents.Budget.{Budget, Tracker, truncate}
use rfq_workflow_agent.Documents.Loader.{
  Readers, FileReading, child_of, children, expand, expand_archive, expand_email, read_opened,
  warn_all, cut_text, apply_caps, is_archive, is_email, is_eml, is_zip,
}

-- The kind of a document stays unknown until its bytes are looked at.
abbrev pub is_unread : FileKind → Bool
is_unread FileKind.unknown = true
is_unread _ = false

-- What one document counts for.
abbrev pub opened_one : Document → ℕ
opened_one d = if is_unread d.kind then 0 else 1

abbrev pub opened_size : Document → ℕ
opened_size d = if is_unread d.kind then 0 else d.size_bytes

abbrev pub opened_count : List Document → ℕ
opened_count [] = 0
opened_count (d ∷ ds) = opened_one d + opened_count ds

abbrev pub opened_bytes : List Document → ℕ
opened_bytes [] = 0
opened_bytes (d ∷ ds) = opened_size d + opened_bytes ds

-- Two documents of one kind and size.
abbrev pub Like : Document → Document → Type 0
Like d e = (e.kind ≡ d.kind) × (e.size_bytes ≡ d.size_bytes)

Like-trans : (d e f : Document) → Like d e → Like e f → Like d f
Like-trans d e f (a, b) (c, g) = (c ∙ a, g ∙ b)

pub warn-Like : (code : Text) (d : Document) → Like d (warn code d)
unfolding warn
warn-Like code d =
    if_cases (λ (e : Document). Like d e) (member code d.warnings) (λ _. (refl, refl))
      (λ _. (refl, refl))

warn_all-Like : (codes : List Text) (d : Document) → Like d (warn_all codes d)
unfolding warn_all
warn_all-Like [] d = (refl, refl)
warn_all-Like (c ∷ codes) d =
    Like-trans d (warn c d) (warn_all codes (warn c d)) (warn-Like c d)
      (warn_all-Like codes (warn c d))

cut_text-Like : (b : Budget) (text : Text) (d : Document) → Like d (cut_text b text d)
unfolding cut_text
cut_text-Like b text d =
    let kept = (truncate text b.max_chars_per_document).0 in
    if_cases (λ (e : Document). Like d e) (truncate text b.max_chars_per_document).1
      (λ _. warn-Like (txt "text_truncated") (record d { text = kept })) (λ _. (refl, refl))

-- The readers of single files leave the size of a document alone.
pub record KeepsSize (r : Readers) : Type 0 where
  pub size :
      (kind : FileKind) (f : Document → Bytes → Document) (d : Document) (content : Bytes)
      → r.reader kind ≡ some f
      → (f d content).size_bytes ≡ d.size_bytes

opened_count-append :
    (ds es : List Document) → opened_count (ds ++ es) ≡ opened_count ds + opened_count es
opened_count-append [] es = omega arith
opened_count-append (d ∷ ds) es = omega (arith, opened_count-append ds es)

opened_bytes-append :
    (ds es : List Document) → opened_bytes (ds ++ es) ≡ opened_bytes ds + opened_bytes es
opened_bytes-append [] es = omega arith
opened_bytes-append (d ∷ ds) es = omega (arith, opened_bytes-append ds es)

opened_one_le : (d : Document) → opened_one d ≤ 1
opened_one_le d = if_cases (λ n. n ≤ 1) (is_unread d.kind) (λ _. omega arith) (λ _. omega arith)

opened_size_le : (d : Document) → opened_size d ≤ d.size_bytes
opened_size_le d =
    if_cases (λ n. n ≤ d.size_bytes) (is_unread d.kind) (λ _. omega arith) (λ _. omega arith)

module _ (r : Readers) (b : Budget) (kept : KeepsSize r) where
  abbrev pub AreSmall : List Document → Type 0
  AreSmall ds = All (λ d. opened_size d ≤ b.max_single_bytes) ds

  -- The opened documents are all in the growth of the totals.
  abbrev pub Spent : Tracker → List Document → Tracker → Type 0
  Spent t ds u =
      (opened_count ds + t.attachments_seen ≤ u.attachments_seen)
      × (opened_bytes ds + t.bytes_seen ≤ u.bytes_seen)
      × AreSmall ds

  -- The same, behind a `may_open` that counted one file of this size.
  abbrev pub Opened : (size : ℕ) → Tracker → List Document → Tracker → Type 0
  Opened size t ds u =
      (opened_count ds + t.attachments_seen ≤ u.attachments_seen + 1)
      × (opened_bytes ds + t.bytes_seen ≤ u.bytes_seen + size)
      × AreSmall ds

  pub Spent-append :
      (t u v : Tracker) (ds es : List Document) → Spent t ds u → Spent u es v → Spent t (ds ++ es) v
  Spent-append t u v ds es (a, c, h) (a', c', h') = (
    omega (arith, opened_count-append ds es, a, a'),
    omega (arith, opened_bytes-append ds es, c, c'),
    All-append _ ds es h h',
  )

  Opened-cons :
      (size : ℕ) (d : Document) (t u : Tracker) (inner : List Document)
      → d.size_bytes ≡ size
      → size ≤ b.max_single_bytes
      → Spent t inner u
      → Opened size t (d ∷ inner) u
  Opened-cons size d t u inner e small (a, c, h) =
      let one = opened_one_le d in
      let cost = opened_size_le d in
      (omega (arith, one, a), omega (arith, cost, e, c), (omega (arith, cost, e, small), h))

  pub Spent-none : (t : Tracker) → Spent t [] t
  Spent-none t = (omega arith, omega arith, tt)

  abbrev pub Spends : FileReading → Type 0
  Spends rd =
      (source : SourceFile) (parent : Option Text) (t : Tracker)
      → Spent t (rd source parent t).0 (rd source parent t).1

  abbrev pub BelowSpends : Option FileReading → Type 0
  BelowSpends none = Unit
  BelowSpends (some rd) = Spends rd

  children-Spent :
      (rd : FileReading) (entries : List (Text × Bytes)) (parent : Text) (t : Tracker)
      → Spends rd
      → Spent t (children rd entries parent t).0 (children rd entries parent t).1
  unfolding children
  children-Spent rd [] parent t k = Spent-none t
  children-Spent rd (e ∷ entries) parent t k =
      let u = (rd (child_of e) (some parent) t).1 in
      Spent-append t u (children rd entries parent u).1 _ _ (k (child_of e) (some parent) t)
        (children-Spent rd entries parent u k)

  expand-Opened :
      (size : ℕ) (below : Option FileReading) (too_deep : Bool) (entries : List (Text × Bytes))
      (d : Document) (t : Tracker)
      → BelowSpends below
      → d.size_bytes ≡ size
      → size ≤ b.max_single_bytes
      → Opened size t (expand below too_deep entries d t).0 (expand below too_deep entries d t).1
  unfolding expand
  expand-Opened size none true entries d t k e small =
      Opened-cons size (warn (txt "nested_too_deep") d) t t []
        ((warn-Like (txt "nested_too_deep") d).1 ∙ e) small (Spent-none t)
  expand-Opened size none false entries d t k e small =
      Opened-cons size d t t [] e small (Spent-none t)
  expand-Opened size (some rd) too_deep entries d t k e small =
      Opened-cons size d t (children rd entries (origin_of d) t).1 _ e small
        (children-Spent rd entries (origin_of d) t k)

  expand_archive-Opened :
      (size : ℕ) (below : Option FileReading) (d : Document) (content : Bytes) (t : Tracker)
      → BelowSpends below
      → d.size_bytes ≡ size
      → size ≤ b.max_single_bytes
      → Opened size t
          (expand_archive r b below d content t).0
          (expand_archive r b below d content t).1
  unfolding expand_archive
  expand_archive-Opened size none d content t k e small =
      expand-Opened size none true [] d t k e small
  expand_archive-Opened size (some rd) d content t k e small =
      let codes = (r.unpack content (is_zip d.kind)).1 in
      expand-Opened size (some rd) true _ (warn_all codes d) t k ((warn_all-Like codes d).1 ∙ e)
        small

  expand_email-Opened :
      (size : ℕ) (below : Option FileReading) (d : Document) (content : Bytes) (t : Tracker)
      → BelowSpends below
      → d.size_bytes ≡ size
      → size ≤ b.max_single_bytes
      → Opened size t (expand_email r b below d content t).0 (expand_email r b below d content t).1
  unfolding expand_email
  expand_email-Opened size below d content t k e small =
      let body = (r.unpack_email content (is_eml d.kind)).0 in
      let codes = (r.unpack_email content (is_eml d.kind)).1.1 in
      let same =
        Like-trans d (cut_text b body d) (warn_all codes (cut_text b body d))
          (cut_text-Like b body d) (warn_all-Like codes (cut_text b body d)) in
      expand-Opened size below _ _ (warn_all codes (cut_text b body d)) t k (same.1 ∙ e) small

  pub read_opened-Opened :
      (size : ℕ) (below : Option FileReading) (source : SourceFile) (content : Bytes) (d : Document)
      (t : Tracker)
      → BelowSpends below
      → d.size_bytes ≡ size
      → size ≤ b.max_single_bytes
      → Opened size t
          (read_opened r b below source content d t).0
          (read_opened r b below source content d t).1
  unfolding read_opened apply_caps
  read_opened-Opened size below source content d t k e small =
      let kind = r.sniff content source.filename source.content_type in
      let x : Document = record d { kind = kind } in
      let Fits : List Document × Tracker → Type 0 = λ y. Opened size t y.0 y.1 in
      if_cases Fits (is_archive kind) (λ _. expand_archive-Opened size below x content t k e small)
        (λ _.
          if_cases Fits (is_email kind) (λ _. expand_email-Opened size below x content t k e small)
            (λ _. (elim (Option-cases (r.reader kind)) [
              | inl without ↦ rw without (
                  Opened-cons size (warn (txt "no_reader_for_kind") x) t t []
                    ((warn-Like (txt "no_reader_for_kind") x).1 ∙ e) small (Spent-none t))
              | inr (f, h) ↦
                  let y = f x content in
                  rw h (
                    Opened-cons size (cut_text b y.text y) t t []
                      ((cut_text-Like b y.text y).1 ∙ (kept.size kind f x content h ∙ e)) small
                      (Spent-none t))
            ])))
