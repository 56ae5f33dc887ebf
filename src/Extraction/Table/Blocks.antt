-- ===== src/Extraction/Table/Blocks.antt =====
-- The tables of a grid: they are apart, and no row of items is left out.
use rfq_workflow_agent.Base.{
  ℕ, suc, ◌+◌, ◌==◌, ◌≤◌, ◌<◌, leb, ltb, ◌≡◌, ◌∙◌, Bool, true, false, ◌&&◌, ◌||◌, Option, none,
  some, List, [], ◌∷◌, if◌then◌else◌, length, any, or_else, arith, Bool-cases, Option-cases, inl,
  inr,
}
use rfq_workflow_agent.Documents.Models.{Grid}
use rfq_workflow_agent.Extraction.Cells.{Row, max_header_scan_rows}
use rfq_workflow_agent.Extraction.Table.{
  TableBlock, block, is_header, has_header_above, header_rows_from, header_rows, next_or,
  cons_block, blocks_from, find_blocks,
}
use rfq_workflow_agent.Extraction.Table.Extent.{IsExtent, block-IsExtent, filled_under}

-- Numbers that rise from `low` on and end below `high`.
abbrev pub IsRising : (low high : ℕ) → List ℕ → Type 0
IsRising low high [] = low ≤ high
IsRising low high (s ∷ ss) = (low ≤ s) × (s < high) × IsRising (s + 1) high ss

IsRising-later :
    (low more high : ℕ) (ss : List ℕ) → low ≤ more → IsRising more high ss → IsRising low high ss
IsRising-later low more high [] h r = omega (arith, h, r)
IsRising-later low more high (s ∷ ss) h (a, b, r) = (omega (arith, h, a), b, r)

header_rows_from-IsRising :
    (every : List Row) (i : ℕ) (rows : List Row)
    → IsRising i (i + length rows) (header_rows_from every i rows)
unfolding header_rows_from
header_rows_from-IsRising every i [] = omega arith
header_rows_from-IsRising every i (row ∷ rows) =
    let e : i + 1 + length rows ≡ i + suc (length rows) = omega arith in
    let later : IsRising (i + 1) (i + suc (length rows)) (header_rows_from every (i + 1) rows) =
      rw e at (header_rows_from-IsRising every (i + 1) rows) in
    elim (Bool-cases ((ltb i max_header_scan_rows || has_header_above every i) && is_header row)) [
      | inl found ↦ rw found ((omega arith, omega arith, later))
      | inr other ↦
          rw other
            (IsRising-later i (i + 1) _ (header_rows_from every (i + 1) rows) (omega arith) later)
    ]

-- Tables from a row on: each has a header, rows right below it, and an end before the next begins.
abbrev pub AreApart : Grid → (low : ℕ) → List TableBlock → Type 0
AreApart grid low [] = low ≤ length grid.rows
AreApart grid low (b ∷ bs) =
    (low ≤ b.header_row)
    × (b.first_data_row ≡ b.header_row + 1)
    × (b.first_data_row ≤ b.last_data_row)
    × AreApart grid (b.last_data_row + 1) bs

AreApart-later :
    (grid : Grid) (low more : ℕ) (bs : List TableBlock)
    → low ≤ more
    → AreApart grid more bs
    → AreApart grid low bs
AreApart-later grid low more [] h a = omega (arith, h, a)
AreApart-later grid low more (b ∷ bs) h (a, f, l, k) = (omega (arith, h, a), f, l, k)

-- The header in force at a row: the last one above it.
abbrev pub header_over : List ℕ → ℕ → Option ℕ
header_over [] i = none
header_over (s ∷ ss) i = or_else (header_over ss i) (if ltb s i then some s else none)

-- `i` is a row of items under the header `s`.
abbrev pub reads : (s i : ℕ) → TableBlock → Bool
reads s i b = b.header_row == s && (leb b.first_data_row i && leb i b.last_data_row)

abbrev pub is_in : ℕ → List ℕ → Bool
is_in i [] = false
is_in i (s ∷ ss) = i == s || is_in i ss

IsRising-next : (low high : ℕ) (ss : List ℕ) → IsRising low high ss → low ≤ next_or high ss
IsRising-next low high [] r = r
IsRising-next low high (s ∷ ss) (a, b, r) = a

-- Where no header of the list stands above `i`, `i` stands in front of the first.
header_over-next :
    (high i : ℕ) (ss : List ℕ)
    → header_over ss i ≡ none
    → is_in i ss ≡ false
    → i < high
    → i < next_or high ss
header_over-next high i [] h k below = below
header_over-next high i (s ∷ ss) h k below = elim (Option-cases (header_over ss i)) [
  | inr (t, e) ↦ absurd (let n : some t ≡ none = rw e at h in cc)
  | inl none_later ↦ elim (Bool-cases (ltb s i)) [
    | inl above ↦ absurd (let n : some s ≡ none = rw (none_later, above) at h in cc)
    | inr not_above ↦ ground (arith, k, not_above)
  ]
]

module _ (grid : Grid) where
  cons_block-AreApart :
      (s e low : ℕ) (o : Option TableBlock) (bs : List TableBlock)
      → IsExtent grid s e o
      → low ≤ s
      → s < e
      → AreApart grid e bs
      → AreApart grid low (cons_block o bs)
  unfolding cons_block
  cons_block-AreApart s e low none bs x h k a = AreApart-later grid low e bs (omega (arith, h, k)) a
  cons_block-AreApart s e low (some b) bs (hd, fst, lst, ends, _) h k a = (
    omega (arith, hd, h),
    omega (arith, hd, fst),
    omega (arith, fst, lst),
    AreApart-later grid (b.last_data_row + 1) e bs (omega (arith, ends)) a,
  )

  blocks_from-AreApart :
      (low : ℕ) (ss : List ℕ)
      → IsRising low (length grid.rows) ss
      → AreApart grid (next_or (length grid.rows) ss) (blocks_from grid ss)
  unfolding blocks_from
  blocks_from-AreApart low [] r = omega arith
  blocks_from-AreApart low (s ∷ ss) (a, b, r) =
      cons_block-AreApart s (next_or (length grid.rows) ss) s
        (block grid s (next_or (length grid.rows) ss)) (blocks_from grid ss)
        (block-IsExtent grid s (next_or (length grid.rows) ss)) (omega arith)
        (omega (arith, IsRising-next (s + 1) (length grid.rows) ss r))
        (blocks_from-AreApart (s + 1) ss r)

  -- The tables stand in the order of the rows and do not overlap: each has at least one row of items,
  -- the first one right below its header, and it ends above the next header and inside the grid.
  pub find_blocks-AreApart : AreApart grid 0 (find_blocks grid)
  unfolding find_blocks header_rows
  find_blocks-AreApart =
      let e : 0 + length grid.rows ≡ length grid.rows = omega arith in
      let rising : IsRising 0 (length grid.rows) (header_rows grid) =
        rw e at (header_rows_from-IsRising grid.rows 0 grid.rows) in
      AreApart-later grid 0 (next_or (length grid.rows) (header_rows grid)) (find_blocks grid)
        (omega arith) (blocks_from-AreApart 0 (header_rows grid) rising)

  any-cons_block :
      (p : TableBlock → Bool) (o : Option TableBlock) (bs : List TableBlock)
      → any p bs ≡ true
      → any p (cons_block o bs) ≡ true
  unfolding cons_block
  any-cons_block p none bs h = h
  any-cons_block p (some b) bs h = ground (arith, h)

  IsExtent-reads :
      (s e i : ℕ) (o : Option TableBlock) (bs : List TableBlock)
      → IsExtent grid s e o
      → s < i
      → i < e
      → 2 ≤ filled_under grid s i
      → any (reads s i) (cons_block o bs) ≡ true
  unfolding cons_block
  IsExtent-reads s e i none bs x over under rich = absurd (omega (arith, rich, x i over under))
  IsExtent-reads s e i (some b) bs (hd, fst, lst, ends, thin) over under rich =
      elim (Bool-cases (ltb b.last_data_row i)) [
        | inl past ↦ absurd (omega (arith, rich, thin i (ground (arith, past)) under))
        | inr inside ↦
            let here : reads s i b ≡ true = ground (arith, hd, fst, inside, over) in
            ground (arith, here)
      ]

  blocks_from-reads :
      (s i : ℕ) (ss : List ℕ)
      → header_over ss i ≡ some s
      → is_in i ss ≡ false
      → i < length grid.rows
      → 2 ≤ filled_under grid s i
      → any (reads s i) (blocks_from grid ss) ≡ true
  unfolding blocks_from
  blocks_from-reads s i [] h k below rich = cc
  blocks_from-reads s i (t ∷ ss) h k below rich =
      let e = next_or (length grid.rows) ss in
      let later_k : is_in i ss ≡ false = ground (arith, k) in
      elim (Option-cases (header_over ss i)) [
        | inr (u, f) ↦
            let same : some u ≡ some s = rw f at h in
            let at : header_over ss i ≡ some s = f ∙ same in
            any-cons_block (reads s i) (block grid t e) (blocks_from grid ss)
              (blocks_from-reads s i ss at later_k below rich)
        | inl no_later ↦ elim (Bool-cases (ltb t i)) [
          | inr not_above ↦ absurd (let n : none ≡ some s = rw (no_later, not_above) at h in cc)
          | inl above ↦
              let same : some t ≡ some s = rw (no_later, above) at h in
              let is : t ≡ s = cc in
              rw is (
                IsExtent-reads s e i (block grid s e) (blocks_from grid ss)
                  (block-IsExtent grid s e) (ground (arith, above, is))
                  (header_over-next (length grid.rows) i ss no_later later_k below) rich)
        ]
      ]

  -- A row that is no header and fills two cells or more of the columns of the last header above it is
  -- a row of the table of that header: no row of items is left out.
  pub find_blocks-reads :
      (s i : ℕ)
      → header_over (header_rows grid) i ≡ some s
      → is_in i (header_rows grid) ≡ false
      → i < length grid.rows
      → 2 ≤ filled_under grid s i
      → any (reads s i) (find_blocks grid) ≡ true
  unfolding find_blocks
  find_blocks-reads s i h k below rich = blocks_from-reads s i (header_rows grid) h k below rich
