-- ===== src/Storage/Names/Apart.antt =====
-- No file of an email overwrites another, or the record itself.
use rfq_workflow_agent.Base.{
  ℕ, suc, ◌≡◌, refl, sym, ap, ◌∙◌, false, List, [], ◌∷◌, ◌++◌, length, drop, arith, Bool-cases,
  Option-cases, inl, inr,
}
use rfq_workflow_agent.Base.Text.{Text, lower, lower-append, member, non_empty}
use rfq_workflow_agent.Base.Digits.{show, number_from, number_from-show, lower-show}
use rfq_workflow_agent.Base.Fresh.{first_free_sound, first_free_found, IsDistinct}
use rfq_workflow_agent.Storage.Names.{last_dot, around_number, numbered, unique}

pub drop-append : (xs ys : Text) → drop (length xs) (xs ++ ys) ≡ ys
drop-append [] ys = refl
drop-append (x ∷ xs) ys = drop-append xs ys

-- Candidates that differ only in a number differ, if what follows the number is no digit.
pub numbers_apart :
    (before after : Text)
    → ((n : ℕ) → number_from n after ≡ n)
    → IsDistinct (λ i. before ++ (show i ++ after))
numbers_apart before after ends = record {
  apart = λ i j e.
      sym (number_from-show i after (ends i))
      ∙ (ap (number_from 0) (
            sym (drop-append before (show i ++ after))
            ∙ (ap (drop (length before)) e ∙ drop-append before (show j ++ after)))
          ∙ number_from-show j after (ends j));
}

-- What follows the number starts with a bracket.
abbrev StartsWithBracket : Text → Type 0
StartsWithBracket s = (rest : Text) × (s ≡ 41 ∷ rest)

around_number-bracket : (name : Text) → StartsWithBracket (around_number name).1
unfolding around_number
around_number-bracket name = elim (Option-cases (last_dot name)) [
  | inl no_dot ↦ rw (around_number, no_dot) (([], refl))
  | inr (parts, dot) ↦ elim (Bool-cases (non_empty parts.0)) [
    | inl stem ↦ rw (around_number, dot, stem) ((b'.' ∷ parts.1, refl))
    | inr no_stem ↦ rw (around_number, dot, no_stem) (([], refl))
  ]
]

number_from-bracket : (s : Text) → StartsWithBracket s → (n : ℕ) → number_from n (lower s) ≡ n
unfolding number_from lower
number_from-bracket s (rest, e) n = rw e refl

lower-numbered :
    (name : Text) (i : ℕ)
    → lower (numbered name i)
      ≡ lower (around_number name).0 ++ (show i ++ lower (around_number name).1)
unfolding numbered
lower-numbered name i =
    lower-append (around_number name).0 (show i ++ (around_number name).1)
    ∙ ap (λ t. lower (around_number name).0 ++ t)
        (lower-append (show i) (around_number name).1
          ∙ ap (λ t. t ++ lower (around_number name).1) (lower-show i))

numbered-IsDistinct : (name : Text) → IsDistinct (λ i. lower (numbered name i))
numbered-IsDistinct name = record {
  apart = λ i j e.
      (numbers_apart (lower (around_number name).0) (lower (around_number name).1)
          (number_from-bracket (around_number name).1 (around_number-bracket name))).apart
        i j (sym (lower-numbered name i) ∙ (e ∙ lower-numbered name j));
}

-- The loop of `_unique` ends, with a name that is not taken, whatever the case of its letters, and that
-- name is taken from then on.
pub unique-free :
    (name : Text) (taken : List Text)
    → (member (lower (unique name taken).0) taken ≡ false)
      × ((unique name taken).1 ≡ lower (unique name taken).0 ∷ taken)
unfolding unique
unique-free name taken = elim (Bool-cases (member (lower name) taken)) [
  | inl used ↦
      let d = numbered-IsDistinct name in
      let (k, e) =
        first_free_found (λ i. lower (numbered name i)) d (suc (length taken)) 2 taken
          (omega arith) in
      rw (used, e)
        ((first_free_sound (λ i. lower (numbered name i)) d (suc (length taken)) 2 k taken e, refl))
  | inr free ↦ rw (free) ((free, refl))
]
