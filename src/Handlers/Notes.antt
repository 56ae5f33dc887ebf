-- ===== src/Handlers/Notes.antt =====
-- `_note` of src/services/handlers.py: the block above the forwarded email, as HTML.
use rfq_workflow_agent.Base.{
  ℕ, ◌-◌, Bool, Option, none, some, List, [], ◌∷◌, ◌++◌, map, if◌then◌else◌, ◌==◌, ltb, length,
  take,
}
use rfq_workflow_agent.Base.Text.{Text, txt, non_empty}
use rfq_workflow_agent.Base.Digits.{show}
use rfq_workflow_agent.Handlers.Effects.{FilledWorkbook}

-- `sep.join(parts)`
unfoldable pub join : Text → List Text → Text
join sep [] = []
join sep (p ∷ []) = p
join sep (p ∷ q ∷ rest) = p ++ (sep ++ join sep (q ∷ rest))

-- `html.escape(text, quote=False)`
unfoldable pub escape : Text → Text
escape [] = []
escape (c ∷ s) =
    (if c == b'&'
      then txt "&amp;"
      else if c == b'<'
      then txt "&lt;"
      else if c == b'>'
      then txt "&gt;"
      else c ∷ [])
    ++ escape s

abbrev max_blanks_listed : ℕ
max_blanks_listed = 6

attached_line : FilledWorkbook → Text
attached_line b =
    txt "Auto-filled KASS RFQ form attached: "
    ++ (b.filename ++ (txt " (" ++ (show b.items ++ txt " item(s).")))

not_attached_line : Option Text → Text
not_attached_line decision =
    txt
      "An auto-filled KASS RFQ form was produced but could not be attached to this forward. It is on the agent's disk under decision "
    ++ ((elim decision [ none ↦ txt "unknown" | some d ↦ if non_empty d then d else txt "unknown" ])
        ++ txt ".")

nothing_line : FilledWorkbook → List Text
nothing_line b =
    if b.items == 0
    then txt "No line items could be read out of this RFQ - the item grid is empty." ∷ []
    else []

unread_line : List Text → List Text
unread_line [] = []
unread_line (f ∷ fs) =
    (show (length (f ∷ fs))
      ++ (txt " attached file(s) could not be read - please check by hand: "
          ++ (join (txt "; ") (f ∷ fs) ++ txt ".")))
    ∷ []

conflict_line : List Text → List Text
conflict_line [] = []
conflict_line (c ∷ cs) =
    (txt "Two attachments disagree on a quantity - check before quoting: "
      ++ (join (txt "; ") (c ∷ cs) ++ txt "."))
    ∷ []

unfoldable pub blank_lines : List Text → List Text
blank_lines [] = []
blank_lines (b ∷ bs) =
    let all = b ∷ bs in
    let more : List Text =
      if ltb max_blanks_listed (length all)
      then (txt "- and "
          ++ (show (length all - max_blanks_listed) ++ txt " more, in the block under the form"))
        ∷ []
      else [] in
    txt "Left blank, please complete by hand:"
    ∷ (map (λ entry. txt "- " ++ entry) (take max_blanks_listed all) ++ more)

abbrev caveat : Text
caveat = txt "Filled by an automated agent - check it against the customer's own files."

unfoldable pub note_lines : FilledWorkbook → Bool → Option Text → List Text
unfolding attached_line not_attached_line nothing_line unread_line conflict_line
note_lines b attached decision =
    (if attached then attached_line b else not_attached_line decision)
    ∷ (nothing_line b
        ++ (unread_line b.unread
            ++ (conflict_line b.conflicts ++ (blank_lines b.why_blank ++ caveat ∷ []))))

-- `_note`
unfoldable pub note : Option FilledWorkbook → Bool → Option Text → Text
note none attached decision = []
note (some b) attached decision = join (txt "<br>") (map escape (note_lines b attached decision))
