-- ===== src/Extraction/Cells/Letters.antt =====
-- The name of a column says which column it is.
use rfq_workflow_agent.Base.{
  ℕ, zero, suc, ◌+◌, ◌-◌, ◌*◌, ◌/◌, ◌%◌, ◌==◌, ◌<◌, ◌≡◌, ap, ◌∙◌, [], ◌∷◌, arith, Bool-cases, inl,
  inr,
}
use rfq_workflow_agent.Base.Text.{Text}
use rfq_workflow_agent.Extraction.Cells.{letters_from, column_letter}

-- What letters count up to in base 26 with the digits 1 to 26, after what was read already.
unfoldable pub column_from : ℕ → Text → ℕ
column_from a [] = a
column_from a (c ∷ s) = column_from (a * 26 + (c - 64)) s

letters_from-column :
    (fuel index : ℕ) (letters : Text)
    → index < fuel
    → column_from 0 (letters_from fuel index letters) ≡ column_from (index + 1) letters
unfolding letters_from column_from
letters_from-column zero index letters h = absurd (omega (arith, h))
letters_from-column (suc fuel) index letters h = elim (Bool-cases (index / 26 == 0)) [
  | inl last ↦
      let e : 0 + (65 + index % 26 - 64) ≡ index + 1 = ground (arith, last) in
      rw last (ap (λ k. column_from k letters) e)
  | inr more ↦
      let below : index / 26 - 1 < fuel = ground (arith, h, more) in
      let e : (index / 26 - 1 + 1) * 26 + (65 + index % 26 - 64) ≡ index + 1 =
        ground (arith, more) in
      rw more (
        letters_from-column fuel (index / 26 - 1) ((65 + index % 26) ∷ letters) below
        ∙ ap (λ k. column_from k letters) e)
]

-- The index of a column is read back from its name, less one.
pub column_from-column_letter : (index : ℕ) → column_from 0 (column_letter index) ≡ index + 1
unfolding column_letter column_from
column_from-column_letter index = letters_from-column (suc index) index [] (omega arith)
