-- ===== src/Extraction/Examples.antt =====
-- Two tables in one sheet, and what code makes of them.
use rfq_workflow_agent.Base.{ℕ, ◌+◌, ◌≡◌, refl, true, none, some, [], ◌∷◌, map, any, arith}
use rfq_workflow_agent.Base.Text.{Text, txt, lower, lstrip, rstrip, strip}
use rfq_workflow_agent.Documents.Models.{Grid}
use rfq_workflow_agent.Extraction.Cells.{
  Cell, column_letter, normalised, cell_at, header_hits, filled_in, places, extend_left,
  extend_right, last_of, range, table_columns,
}
use rfq_workflow_agent.Extraction.Cells.Letters.{column_from, column_from-column_letter}
use rfq_workflow_agent.Extraction.Table.{
  TableBlock, header_rows, header_rows_from, has_header_above, find_blocks, trim, rows_kept,
  is_tail_noise, block, block_of, block_with, blocks_from, cons_block,
}
use rfq_workflow_agent.Extraction.Table.Blocks.{
  AreApart, reads, find_blocks-AreApart, find_blocks-reads,
}

abbrev is : Text → Cell
is t = some t

-- A title, a table with a list parked beside it, a total, and a second table.
abbrev sheet : Grid
sheet = record {
  origin = txt "rfq.xlsx > Sheet1";
  rows =
      (is (txt "DECK STORES") ∷ [])
      ∷ (is (txt "Item")
          ∷ is (txt "Description")
          ∷ is (txt "Qty.")
          ∷ none
          ∷ is (txt "BAG 16 KG")
          ∷ [])
      ∷ (is (txt "1") ∷ is (txt "Rope") ∷ is (txt "2 coil") ∷ none ∷ is (txt "BOX") ∷ [])
      ∷ (none ∷ is (txt "Paint") ∷ is (txt "4") ∷ none ∷ is (txt "CAN") ∷ [])
      ∷ (none ∷ is (txt "TOTAL") ∷ none ∷ none ∷ is (txt "DRUM") ∷ [])
      ∷ (is (txt "Item") ∷ is (txt "Qty") ∷ [])
      ∷ (is (txt "Filter") ∷ is (txt "1") ∷ [])
      ∷ [];
  name = none;
}

two_tables :
    map {B = ℕ × ℕ × ℕ}
      (λ (b : TableBlock). (b.header_row, b.first_data_row, b.last_data_row))
      (find_blocks sheet)
    ≡ (1, 2, 3) ∷ (5, 6, 6) ∷ []
unfolding header_rows header_rows_from has_header_above header_hits normalised strip lstrip rstrip
    lower filled_in table_columns cell_at places extend_left extend_right last_of range find_blocks
    blocks_from cons_block block block_of block_with rows_kept trim is_tail_noise
two_tables = refl

column_names :
    map column_letter (0 ∷ 25 ∷ 26 ∷ 701 ∷ 702 ∷ [])
    ≡ map txt ("A" ∷ "Z" ∷ "AA" ∷ "ZZ" ∷ "AAA" ∷ [])
unfolding column_letter
column_names = refl

column_from-column_letter_example : column_from 0 (column_letter 18277) ≡ 18277 + 1
column_from-column_letter_example = column_from-column_letter 18277

find_blocks-AreApart_example : AreApart sheet 0 (find_blocks sheet)
find_blocks-AreApart_example = find_blocks-AreApart sheet

find_blocks-reads_example : any (reads 1 3) (find_blocks sheet) ≡ true
unfolding header_rows header_rows_from has_header_above header_hits normalised strip lstrip rstrip
    lower filled_in table_columns cell_at places extend_left extend_right last_of range
find_blocks-reads_example = find_blocks-reads sheet 1 3 refl refl (omega arith) (omega arith)
