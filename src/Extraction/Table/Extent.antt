-- ===== src/Extraction/Table/Extent.antt =====
-- How far one block reaches.
use rfq_workflow_agent.Base.{
  ℕ, zero, suc, ◌+◌, ◌-◌, ◌==◌, ◌≤◌, ◌<◌, leb, ltb, ◌≡◌, refl, Bool, true, Option, none, some, List,
  [], ◌∷◌, any, arith, Bool-cases, inl, inr,
}
use rfq_workflow_agent.Documents.Models.{Grid}
use rfq_workflow_agent.Extraction.Cells.{filled_in, table_columns, range}
use rfq_workflow_agent.Extraction.Table.{
  TableBlock, row_at, is_tail_noise, trim, rows_kept, block_with, block_of, block,
}

-- What `trim` leaves away is noise.
trim_bounds : (noise : ℕ → Bool) (n : ℕ) → trim noise n ≤ n
unfolding trim
trim_bounds noise zero = omega arith
trim_bounds noise (suc n) = ground (arith, trim_bounds noise n)

trim-noise : (noise : ℕ → Bool) (n i : ℕ) → trim noise n ≤ i → i < n → noise i ≡ true
unfolding trim
trim-noise noise zero i h k = absurd (omega (arith, k))
trim-noise noise (suc n) i h k = elim (Bool-cases (noise n)) [
  | inr kept ↦ absurd (let below : suc n ≤ i = rw kept at h in omega (arith, below, k))
  | inl gone ↦
      let below : trim noise n ≤ i = rw gone at h in
      elim (Bool-cases (i == n)) [
        | inl same ↦ (let e : i ≡ n = ground (arith, same) in rw e gone)
        | inr other ↦ trim-noise noise n i below (ground (arith, other, k))
      ]
]

rows_kept_bounds :
    (grid : Grid) (headed : List ℕ) (first count : ℕ) → rows_kept grid headed first count ≤ count
unfolding rows_kept
rows_kept_bounds grid headed first count =
    let full = trim (λ n. filled_in (row_at grid (first + n)) headed == 0) count in
    omega (
      arith,
      trim_bounds (λ n. filled_in (row_at grid (first + n)) headed == 0) count,
      trim_bounds
          (λ n.
            is_tail_noise headed
              (any (λ i. leb 2 (filled_in (row_at grid i) headed)) (range first full))
              (row_at grid (first + n)))
          full,
    )

-- The cells of a row in the columns of the table under a header.
abbrev pub filled_under : Grid → ℕ → ℕ → ℕ
filled_under grid header_row i = filled_in (row_at grid i) (table_columns (row_at grid header_row))

thin :
    (grid : Grid) (headed : List ℕ) (first count k : ℕ)
    → rows_kept grid headed first count ≤ k
    → k < count
    → filled_in (row_at grid (first + k)) headed < 2
unfolding rows_kept is_tail_noise
thin grid headed first count k h below =
    let blank = λ (n : ℕ). filled_in (row_at grid (first + n)) headed == 0 in
    let full = trim blank count in
    let rich = any (λ i. leb 2 (filled_in (row_at grid i) headed)) (range first full) in
    let noise = λ (n : ℕ). is_tail_noise headed rich (row_at grid (first + n)) in
    elim (Bool-cases (ltb k full)) [
      | inr past ↦
          let b : blank k ≡ true = trim-noise blank count k (ground (arith, past)) below in
          ground (arith, b)
      | inl inside ↦
          let b : noise k ≡ true = trim-noise noise full k h (ground (arith, inside)) in
          ground (arith, b)
    ]

-- The rows of a block, and what the rows in front of the next header hold that are left away.
abbrev pub IsExtent : Grid → (header_row ends_before : ℕ) → Option TableBlock → Type 0
IsExtent grid s e none = (i : ℕ) → s < i → i < e → filled_under grid s i < 2
IsExtent grid s e (some b) =
    (b.header_row ≡ s)
    × (b.first_data_row ≡ s + 1)
    × (s < b.last_data_row)
    × (b.last_data_row < e)
    × ((i : ℕ) → b.last_data_row < i → i < e → filled_under grid s i < 2)

block_with-IsExtent :
    (grid : Grid) (s e n : ℕ) (headed : List ℕ)
    → headed ≡ table_columns (row_at grid s)
    → n ≤ e - (s + 1)
    → ((k : ℕ) → n ≤ k → k < e - (s + 1) → filled_in (row_at grid (s + 1 + k)) headed < 2)
    → IsExtent grid s e (block_with grid s headed n)
unfolding block_with
block_with-IsExtent grid s e zero headed h below rest = λ i over under.
    let e1 : s + 1 + (i - (s + 1)) ≡ i = omega (arith, over) in
    rw (← h) (rw e1 at (rest (i - (s + 1)) (omega arith) (omega (arith, over, under))))
block_with-IsExtent grid s e (suc n) headed h below rest = (
  refl,
  refl,
  omega arith,
  omega (arith, below),
  λ i over under.
      let e1 : s + 1 + (i - (s + 1)) ≡ i = omega (arith, over) in
      rw (← h) (rw e1 at (rest (i - (s + 1)) (omega (arith, over)) (omega (arith, over, under)))),
)

block_of-IsExtent :
    (grid : Grid) (s e : ℕ) (headed : List ℕ)
    → headed ≡ table_columns (row_at grid s)
    → IsExtent grid s e (block_of grid s e headed)
unfolding block_of filled_in
block_of-IsExtent grid s e [] h = λ i over under. rw (← h) (omega arith)
block_of-IsExtent grid s e (c ∷ cs) h =
    block_with-IsExtent grid s e (rows_kept grid (c ∷ cs) (s + 1) (e - (s + 1))) (c ∷ cs) h
      (rows_kept_bounds grid (c ∷ cs) (s + 1) (e - (s + 1)))
      (thin grid (c ∷ cs) (s + 1) (e - (s + 1)))

pub block-IsExtent : (grid : Grid) (s e : ℕ) → IsExtent grid s e (block grid s e)
unfolding block
block-IsExtent grid s e = block_of-IsExtent grid s e (table_columns (row_at grid s)) refl
