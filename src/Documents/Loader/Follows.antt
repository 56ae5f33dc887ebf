-- ===== src/Documents/Loader/Follows.antt =====
-- What a document lists and tells, and the steps of the loader that keep it.
use rfq_workflow_agent.Base.{
  ℕ, Bool, true, false, ◌||◌, Option, none, some, List, [], ◌∷◌, ◌++◌, ◌≡◌, refl, sym, ap, ◌∙◌,
  arith, Bool-cases, inl, inr, is_some, take, ltb,
}
use rfq_workflow_agent.Base.Text.{Text, txt, member}
use rfq_workflow_agent.Documents.Models.{Bytes, FileKind, Document, warn}
use rfq_workflow_agent.Documents.Budget.{Budget, truncate}
use rfq_workflow_agent.Documents.Images.{image_count, cut_images}
use rfq_workflow_agent.Documents.Loader.{Readers, warn_all, cut_text, is_archive, is_email}

-- The names of the documents that came with the email itself.
abbrev pub top_name : Option Text → Text → List Text
top_name none name = name ∷ []
top_name (some p) name = []

abbrev pub tops : List Document → List Text
tops [] = []
tops (d ∷ ds) = top_name d.parent d.filename ++ tops ds

abbrev pub has_warning : List Text → Bool
has_warning [] = false
has_warning (c ∷ codes) = true

-- A document says why it holds nothing, or is of a kind that is read or unpacked.
abbrev pub told : Readers → Document → Bool
told r d =
    has_warning d.warnings || is_archive d.kind || is_email d.kind || is_some (r.reader d.kind)

pub append_assoc : (xs ys zs : List Text) → (xs ++ ys) ++ zs ≡ xs ++ (ys ++ zs)
append_assoc [] ys zs = refl
append_assoc (x ∷ xs) ys zs = ap (λ l. x ∷ l) (append_assoc xs ys zs)

pub append_nil : (xs : List Text) → xs ++ [] ≡ xs
append_nil [] = refl
append_nil (x ∷ xs) = ap (λ l. x ∷ l) (append_nil xs)

pub tops-append : (ds es : List Document) → tops (ds ++ es) ≡ tops ds ++ tops es
tops-append [] es = refl
tops-append (d ∷ ds) es =
    ap (λ l. top_name d.parent d.filename ++ l) (tops-append ds es)
    ∙ sym (append_assoc (top_name d.parent d.filename) (tops ds) (tops es))

has_warning-snoc : (codes : List Text) (c : Text) → has_warning (codes ++ c ∷ []) ≡ true
has_warning-snoc [] c = refl
has_warning-snoc (d ∷ codes) c = refl

has_warning-member :
    (c : Text) (codes : List Text) → member c codes ≡ true → has_warning codes ≡ true
has_warning-member c [] h = absurd (ground (arith, h))
has_warning-member c (d ∷ codes) h = refl

-- Two documents of one place and kind, the second of which says at least what the first one says.
abbrev pub Follows : Document → Document → Type 0
Follows d e =
    (e.filename ≡ d.filename)
    × (e.kind ≡ d.kind)
    × (e.parent ≡ d.parent)
    × (has_warning d.warnings ≡ true → has_warning e.warnings ≡ true)

-- What a reader of single files leaves alone: the name of the document, its kind, where it came from,
-- and the warnings that it already has.
pub record KeepsPlace (r : Readers) : Type 0 where
  pub keeps :
      (kind : FileKind) (f : Document → Bytes → Document) (d : Document) (content : Bytes)
      → r.reader kind ≡ some f
      → Follows d (f d content)

pub Follows-refl : (d : Document) → Follows d d
Follows-refl d = (refl, refl, refl, λ h. h)

pub Follows-trans : (d e f : Document) → Follows d e → Follows e f → Follows d f
Follows-trans d e f (a, b, c, h) (a', b', c', h') = (a' ∙ a, b' ∙ b, c' ∙ c, λ x. h' (h x))

pub warn-Follows :
    (code : Text) (d : Document)
    → Follows d (warn code d) × (has_warning (warn code d).warnings ≡ true)
unfolding warn
warn-Follows code d = elim (Bool-cases (member code d.warnings)) [
  | inl old ↦ rw old (((refl, refl, refl, λ h. h), has_warning-member code d.warnings old))
  | inr new ↦ rw new (
      ((refl, refl, refl, λ h. has_warning-snoc d.warnings code), has_warning-snoc d.warnings code))
]

pub warn_all-Follows : (codes : List Text) (d : Document) → Follows d (warn_all codes d)
unfolding warn_all
warn_all-Follows [] d = (refl, refl, refl, λ h. h)
warn_all-Follows (c ∷ codes) d =
    Follows-trans d (warn c d) (warn_all codes (warn c d)) (warn-Follows c d).0
      (warn_all-Follows codes (warn c d))

pub cut_text-Follows : (b : Budget) (text : Text) (d : Document) → Follows d (cut_text b text d)
unfolding cut_text
cut_text-Follows b text d = elim (Bool-cases (truncate text b.max_chars_per_document).1) [
  | inl cut ↦
      rw cut
        (warn-Follows (txt "text_truncated")
          (record d { text = (truncate text b.max_chars_per_document).0 })).0
  | inr whole ↦ rw whole ((refl, refl, refl, λ h. h))
]

pub cut_images-Follows : (a : ℕ) (d : Document) → Follows d (cut_images a d)
unfolding cut_images
cut_images-Follows a d = elim (Bool-cases (ltb a (image_count d))) [
  | inl over ↦
      rw over (warn-Follows (txt "images_truncated") (record d { images = take a d.images })).0
  | inr under ↦ rw under ((refl, refl, refl, λ h. h))
]
