-- ===== src/Preprocessing/Examples.antt =====
-- A reply above the email that it answers, and signatures.
use rfq_workflow_agent.Base.{◌≡◌, refl, true, some, none, List, [], ◌∷◌, map}
use rfq_workflow_agent.Base.Text.{Text, txt, strip, lstrip, rstrip, lower_code, starts_with}
use rfq_workflow_agent.Domain.Models.{QuotedMessage}
use rfq_workflow_agent.Preprocessing.Thread.{
  split_lines, cons_char, join_lines, behind, run_length, at_least, divider, message_id_line,
  caution, wrote_from, on_wrote, from_line, date_line, subject_line, starts_header_block,
  banner_precedes_header, is_boundary, hits_from, cluster_from, cluster, boundaries, first_match,
  parse_quoted, quoted_parts, split_thread,
}
use rfq_workflow_agent.Preprocessing.Boilerplate.{
  associated_files, found_in, bears_value, bears_value_after, lines_before, drop_tail, cut_at,
  drop_signature,
}
use rfq_workflow_agent.Preprocessing.Boilerplate.Signature.{IsSafeCut, drop_signature-IsSafeCut}
use rfq_workflow_agent.Preprocessing.Thread.Parts.{IsCut, split_thread-IsCut}

abbrev lines : List Text
lines = map txt (
    "Please see below, thanks." ∷ "" ∷ "-----Original Message-----" ∷ "From: Ann <ann@ship>"
    ∷ "Sent: Monday" ∷ "Subject: RFQ 12" ∷ "" ∷ "Please quote." ∷ "On Friday, Bob (bob@ship) wrote:"
    ∷ "Hello" ∷ [])

-- The divider and the header block are one boundary, and the line of Bob is another.
two_boundaries : boundaries lines ≡ 2 ∷ 8 ∷ []
unfolding boundaries hits_from cluster cluster_from is_boundary divider at_least run_length behind
    lower_code message_id_line caution on_wrote wrote_from starts_with starts_header_block
    banner_precedes_header from_line date_line subject_line lstrip
two_boundaries = refl

senders :
    map (λ (q : QuotedMessage). q.from_address) (map parse_quoted (quoted_parts lines (2 ∷ 8 ∷ [])))
    ≡ some (txt "Ann <ann@ship>") ∷ none ∷ []
unfolding parse_quoted quoted_parts first_match from_line behind lower_code strip lstrip rstrip
senders = refl

split_thread-IsCut_example : IsCut (join_lines lines) (split_thread (join_lines lines) 15)
split_thread-IsCut_example = split_thread-IsCut (join_lines lines) 15

abbrev signed : Text
signed = join_lines (
    map txt
      ("Please quote." ∷ "Kind regards," ∷ "Ann" ∷ "Buyer" ∷ "Tel 1" ∷ "Tel 2" ∷ "Save paper" ∷ []))

drop_signature-IsSafeCut_example : IsSafeCut signed (drop_signature signed)
drop_signature-IsSafeCut_example = drop_signature-IsSafeCut signed

-- The cut behind a disclaimer has no such test: the quantity below it is lost.
abbrev disclaimed : List Text
disclaimed =
    map txt ("Hi" ∷ "This message and any associated files are private." ∷ "Qty 5 rope" ∷ [])

quantity_lost :
    (bears_value (join_lines disclaimed) ≡ true)
    × (drop_tail (found_in associated_files) (join_lines disclaimed) ≡ (txt "Hi", true))
unfolding drop_tail cut_at lines_before found_in associated_files behind lower_code join_lines
    split_lines cons_char bears_value_after
quantity_lost = (refl, refl)
