-- ===== src/Preprocessing/Boilerplate/Signature.antt =====
-- What is cut off below a sign-off bears no value.
use rfq_workflow_agent.Base.{
  ℕ, ◌+◌, ◌≡◌, refl, ap, ◌∙◌, Bool, true, false, not, Option, none, some, List, ◌++◌, if_cases,
  take, drop, arith,
}
use rfq_workflow_agent.Base.Text.{Text, strip, non_empty}
use rfq_workflow_agent.Preprocessing.Thread.{split_lines, join_lines}
use rfq_workflow_agent.Preprocessing.Thread.Parts.{join_lines-split_lines, take-drop}
use rfq_workflow_agent.Preprocessing.Boilerplate.{
  is_sign_off, bears_value, lines_before, signature_lines, cut_signature, drop_signature,
}

-- The message as it was, or the lines in front of a cut, where the lines below it hold something and bear
-- no value.
abbrev pub IsSafeCut : Text → Text × Bool → Type 0
IsSafeCut text (t, false) = t ≡ text
IsSafeCut text (t, true) =
    (kept removed : List Text) × (t ≡ join_lines kept)
    × (join_lines (kept ++ removed) ≡ text)
    × (bears_value (join_lines removed) ≡ false)
    × (non_empty (strip (join_lines removed)) ≡ true)

cut_signature-IsSafeCut :
    (text : Text) (lines : List Text) (o : Option ℕ)
    → join_lines lines ≡ text
    → IsSafeCut text (cut_signature text lines o)
unfolding cut_signature
cut_signature-IsSafeCut text lines none e = refl
cut_signature-IsSafeCut text lines (some n) e =
    let k = n + 1 + signature_lines 4 (drop (n + 1) lines) in
    let removed = join_lines (drop k lines) in
    if_cases (IsSafeCut text) (not (non_empty (strip removed))) (λ _. refl)
      (λ full.
        if_cases (IsSafeCut text) (bears_value removed) (λ _. refl)
          (λ none_there. (
            take k lines,
            drop k lines,
            refl,
            ap join_lines (take-drop k lines) ∙ e,
            none_there,
            ground (arith, full),
          )))

-- A signature is cut off only where the lines below it bear no price, quantity, vessel or the like: the
-- message that is left is the start of the message, and what is cut is the rest of its lines.
pub drop_signature-IsSafeCut : (text : Text) → IsSafeCut text (drop_signature text)
unfolding drop_signature
drop_signature-IsSafeCut text =
    cut_signature-IsSafeCut text (split_lines text) (lines_before is_sign_off (split_lines text))
      (join_lines-split_lines text)
