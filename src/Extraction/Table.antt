-- ===== src/Extraction/Table.antt =====
-- The tables of a grid in src/services/extraction/table.py: where each starts and ends. A row number
-- past the end of the grid is an empty row, which no caller asks for.
pub mod Extent
pub mod Blocks
use rfq_workflow_agent.Base.{
  ℕ, zero, suc, ◌+◌, ◌-◌, ◌*◌, ◌/◌, ◌==◌, leb, ltb, min, Bool, true, false, not, ◌&&◌, ◌||◌, Option,
  none, some, List, [], ◌∷◌, ◌++◌, map, if◌then◌else◌, length, take, drop, any, filter, get_elem?,
  get_or,
}
use rfq_workflow_agent.Base.Text.{Text, text_eq}
use rfq_workflow_agent.Documents.Models.{Grid}
use rfq_workflow_agent.Extraction.Cells.{
  Cell, Row, is_filled, cell_at, header_hits, min_header_hits, max_header_scan_rows,
  samples_per_column, filled_in, table_columns, range, ColumnProfile, is_rare, profile,
}

pub record TableBlock : Type 0 where
  pub grid : Grid
  pub header_row : ℕ
  pub first_data_row : ℕ
  pub last_data_row : ℕ
  pub profiles : List ColumnProfile

abbrev pub row_at : Grid → ℕ → Row
row_at grid i = get_or grid.rows i []

abbrev pub is_header : Row → Bool
is_header row = leb min_header_hits (header_hits row)

-- `_has_header_above`
unfoldable pub has_header_above : List Row → ℕ → Bool
has_header_above rows index = any is_header (take (min index max_header_scan_rows) rows)

-- `_header_rows`, from the row with a given number on.
unfoldable pub header_rows_from : List Row → ℕ → List Row → List ℕ
header_rows_from all i [] = []
header_rows_from all i (row ∷ rows) =
    let rest = header_rows_from all (i + 1) rows in
    if (ltb i max_header_scan_rows || has_header_above all i) && is_header row
    then i ∷ rest
    else rest

unfoldable pub header_rows : Grid → List ℕ
header_rows grid = header_rows_from grid.rows 0 grid.rows

-- `_is_tail_noise`
unfoldable pub is_tail_noise : List ℕ → (rich : Bool) → Row → Bool
is_tail_noise headed rich row =
    let filled = filled_in row headed in filled == 0 || (rich && ltb filled 2)

-- `while last >= first and noise(rows[last]): last -= 1`, on the rows from `first` on and their number.
unfoldable pub trim : (ℕ → Bool) → ℕ → ℕ
trim noise zero = 0
trim noise (suc n) = let fewer = trim noise n in if noise n then fewer else suc n

-- The number of rows of a block, with `first` and the number of rows in front of the next header.
unfoldable pub rows_kept : Grid → List ℕ → (first count : ℕ) → ℕ
rows_kept grid headed first count =
    let full = trim (λ n. filled_in (row_at grid (first + n)) headed == 0) count in
    let rich = any (λ i. leb 2 (filled_in (row_at grid i) headed)) (range first full) in
    trim (λ n. is_tail_noise headed rich (row_at grid (first + n))) full

-- `_block`, with the number of its rows.
unfoldable pub block_with : Grid → ℕ → List ℕ → ℕ → Option TableBlock
block_with grid header_row headed zero = none
block_with grid header_row headed (suc n) = some (record {
  grid = grid;
  header_row = header_row;
  first_data_row = header_row + 1;
  last_data_row = header_row + 1 + n;
  profiles =
      map
        (λ i.
          profile i (row_at grid header_row) (map (row_at grid) (range (header_row + 1) (suc n))))
        headed;
})

-- `_block`, with the columns of the table.
unfoldable pub block_of : Grid → ℕ → ℕ → List ℕ → Option TableBlock
block_of grid header_row ends_before [] = none
block_of grid header_row ends_before (c ∷ cs) =
    block_with grid header_row (c ∷ cs)
      (rows_kept grid (c ∷ cs) (header_row + 1) (ends_before - (header_row + 1)))

-- `_block`
unfoldable pub block : Grid → (header_row ends_before : ℕ) → Option TableBlock
unfolding block_of
block grid header_row ends_before =
    block_of grid header_row ends_before (table_columns (row_at grid header_row))

-- A block in front of the others, where there is one.
unfoldable pub cons_block : Option TableBlock → List TableBlock → List TableBlock
cons_block none blocks = blocks
cons_block (some b) blocks = b ∷ blocks

-- The next header, or the end of the grid.
abbrev pub next_or : ℕ → List ℕ → ℕ
next_or rest [] = rest
next_or rest (s ∷ starts) = s

unfoldable pub blocks_from : Grid → List ℕ → List TableBlock
blocks_from grid [] = []
blocks_from grid (s ∷ starts) =
    cons_block (block grid s (next_or (length grid.rows) starts)) (blocks_from grid starts)

-- `find_blocks`
unfoldable pub find_blocks : Grid → List TableBlock
find_blocks grid = blocks_from grid (header_rows grid)

-- `block_at`
unfoldable pub block_at : Grid → ℕ → Option TableBlock
block_at grid header_row =
    if ltb header_row (length grid.rows - 1)
    then block grid header_row
        (next_or (length grid.rows) (filter (λ i. ltb header_row i) (header_rows grid)))
    else none

-- `TableBlock.height` and `TableBlock.data_rows`
abbrev pub height : TableBlock → ℕ
height b = b.last_data_row - b.first_data_row + 1

unfoldable pub data_rows : TableBlock → List (ℕ × Row)
data_rows b = map (λ i. (i, row_at b.grid i)) (range b.first_data_row (height b))

-- `TableBlock.profile_for`
unfoldable pub profile_for : Text → List ColumnProfile → Option ColumnProfile
profile_for letter [] = none
profile_for letter (p ∷ ps) =
    let later = profile_for letter ps in if text_eq p.letter letter then some p else later

-- The place of the first row in which a column is filled.
unfoldable pub first_filled : ℕ → ℕ → List (ℕ × Row) → Option ℕ
first_filled index i [] = none
first_filled index i ((_, row) ∷ rows) =
    let later = first_filled index (i + 1) rows in
    if is_filled (cell_at row index) then some i else later

-- `position in self._rare_column_rows(rows)`
unfoldable pub shows_rare : List ColumnProfile → List (ℕ × Row) → ℕ → Bool
shows_rare [] rows position = false
shows_rare (p ∷ ps) rows position =
    (is_rare p && elim (first_filled p.index 0 rows) [ none ↦ false | some i ↦ i == position ])
    || shows_rare ps rows position

-- `position in wanted`, for a number of rows.
unfoldable pub is_wanted : TableBlock → List (ℕ × Row) → ℕ → Bool
is_wanted b rows position =
    let n = length rows in
    ltb position samples_per_column
    || (leb (n / 2) position && ltb position (n / 2 + samples_per_column))
    || (leb (n - samples_per_column) position && ltb position n)
    || shows_rare b.profiles rows position

-- The rows at the places that are wanted, in their order.
unfoldable pub rows_at : (ℕ → Bool) → ℕ → List (ℕ × Row) → List (ℕ × Row)
rows_at wanted i [] = []
rows_at wanted i (row ∷ rows) =
    let rest = rows_at wanted (i + 1) rows in if wanted i then row ∷ rest else rest

-- `TableBlock.sample_rows`
unfoldable pub sample_rows : TableBlock → List (ℕ × Row)
sample_rows b =
    let rows = data_rows b in
    if leb (length rows) (3 * samples_per_column) then rows else rows_at (is_wanted b rows) 0 rows

-- `TableBlock.title`: the nearest of the two rows above the header with a filled cell.
unfoldable pub spaced : Text → Text → Text
spaced [] rest = rest
spaced (c ∷ s) [] = c ∷ s
spaced (c ∷ s) (d ∷ rest) = (c ∷ s) ++ b' ' ∷ d ∷ rest

unfoldable pub joined : Row → Text
unfolding spaced
joined [] = []
joined (none ∷ row) = joined row
joined (some t ∷ row) = spaced t (joined row)

unfoldable pub title_from : Grid → ℕ → ℕ → Text
title_from grid zero above = []
title_from grid (suc fuel) zero = []
title_from grid (suc fuel) (suc above) =
    let further = title_from grid fuel above in
    elim (joined (row_at grid above)) [ [] ↦ further | c ∷ s ↦ c ∷ s ]

unfoldable pub title : TableBlock → Text
unfolding title_from
title b = title_from b.grid 2 b.header_row
