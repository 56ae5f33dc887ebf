-- ===== src/Extraction/Cells.antt =====
-- The rows of a table in src/services/extraction/table.py: headings, the columns of a table and what
-- one column holds. `\d` and the case of letters are those of ASCII.
pub mod Letters
use rfq_workflow_agent.Base.{
  ℕ, zero, suc, ◌+◌, ◌-◌, ◌*◌, ◌/◌, ◌%◌, ◌==◌, leb, ltb, max, Bool, true, false, not, ◌&&◌, ◌||◌,
  Option, none, some, List, [], ◌∷◌, ◌++◌, map, if◌then◌else◌, length, take, filter, get_elem?,
}
use rfq_workflow_agent.Base.Text.{Text, txt, lower, lstrip, strip, member, non_empty}
use rfq_workflow_agent.Base.Digits.{is_digit}

abbrev pub Cell : Type 0
Cell = Option Text

abbrev pub Row : Type 0
Row = List Cell

-- `HEADER_WORDS`
abbrev pub header_words : List Text
header_words = map txt (
    "code" ∷ "item" ∷ "items" ∷ "item code" ∷ "item no" ∷ "itemno" ∷ "impa" ∷ "issa" ∷ "part"
    ∷ "part no" ∷ "partno" ∷ "part number" ∷ "ref" ∷ "description" ∷ "desc" ∷ "item description"
    ∷ "material" ∷ "goods" ∷ "qty" ∷ "q'ty" ∷ "qnty" ∷ "quantity" ∷ "req qty" ∷ "required" ∷ "uom"
    ∷ "u/m" ∷ "unit" ∷ "units" ∷ "unit of measure" ∷ "measure" ∷ "item unit" ∷ "sr" ∷ "sr no" ∷ "sl"
    ∷ "sl no" ∷ "s/n" ∷ "no" ∷ "no." ∷ "pos" ∷ "line" ∷ "remark" ∷ "remarks" ∷ "note" ∷ "notes"
    ∷ "maker" ∷ "brand" ∷ [])

abbrev pub min_header_hits : ℕ
min_header_hits = 2

abbrev pub max_header_scan_rows : ℕ
max_header_scan_rows = 30

abbrev pub samples_per_column : ℕ
samples_per_column = 5

-- `bool(cell)`
abbrev pub is_filled : Cell → Bool
is_filled none = false
is_filled (some t) = non_empty t

-- `_cell`
unfoldable pub cell_at : Row → ℕ → Cell
cell_at [] i = none
cell_at (c ∷ row) zero = c
cell_at (c ∷ row) (suc i) = cell_at row i

-- What `_PUNCTUATION` keeps.
abbrev pub is_plain : ℕ → Bool
is_plain c = (leb b'a' c && leb c b'z') || is_digit c || c == b'/' || c == 39 || c == b' '

-- `_normalised`
unfoldable pub normalised : Cell → Text
normalised none = []
normalised (some t) = strip (filter is_plain (lower (strip t)))

-- How many things are so.
abbrev pub tally {ℓ} : {A : Type ℓ} → (A → Bool) → List A → ℕ
tally p [] = 0
tally p (x ∷ xs) = let rest = tally p xs in if p x then suc rest else rest

abbrev pub is_heading : Cell → Bool
is_heading c = member (normalised c) header_words

-- `_header_hits`
unfoldable pub header_hits : Row → ℕ
header_hits row = tally is_heading row

-- `_filled_in`
unfoldable pub filled_in : Row → List ℕ → ℕ
filled_in row columns = tally (λ i. is_filled (cell_at row i)) columns

-- The places from `i` on at which a test holds: `[i for i, x in enumerate(xs) if p(x)]`
unfoldable pub places {ℓ} : {A : Type ℓ} → (A → Bool) → ℕ → List A → List ℕ
places p i [] = []
places p i (x ∷ xs) = let rest = places p (i + 1) xs in if p x then i ∷ rest else rest

-- `range(i, i + n)`
unfoldable pub range : ℕ → ℕ → List ℕ
range i zero = []
range i (suc n) = i ∷ range (i + 1) n

-- `while left > 0 and headers[left - 1]: left -= 1`
unfoldable pub extend_left : Row → ℕ → ℕ
extend_left headers zero = 0
extend_left headers (suc left) =
    let further = extend_left headers left in
    if is_filled (cell_at headers left) then further else suc left

-- `while right + 1 < len(headers) and headers[right + 1]: right += 1`; past the end no cell is filled.
unfoldable pub extend_right : Row → ℕ → ℕ → ℕ
extend_right headers zero right = right
extend_right headers (suc fuel) right =
    let further = extend_right headers fuel (right + 1) in
    if is_filled (cell_at headers (right + 1)) then further else right

unfoldable pub last_of : ℕ → List ℕ → ℕ
last_of x [] = x
last_of x (y ∷ ys) = last_of y ys

-- `_table_columns`
unfoldable pub table_columns : Row → List ℕ
table_columns headers = elim (places is_heading 0 headers) [
  | [] ↦ places is_filled 0 headers
  | first ∷ more ↦
      let left = extend_left headers first in
      let right = extend_right headers (length headers) (last_of first more) in
      filter (λ i. is_filled (cell_at headers i)) (range left (suc right - left))
]

-- `is_numeric`
unfoldable pub is_numeric : Text → Bool
is_numeric value = elim (lstrip value) [ [] ↦ false | c ∷ rest ↦ is_digit c ]

-- `column_letter`, with fuel for the rounds of its loop.
unfoldable pub letters_from : ℕ → ℕ → Text → Text
letters_from zero index letters = letters
letters_from (suc fuel) index letters =
    let more = letters_from fuel (index / 26 - 1) ((b'A' + index % 26) ∷ letters) in
    if index / 26 == 0 then (b'A' + index % 26) ∷ letters else more

unfoldable pub column_letter : ℕ → Text
unfolding letters_from
column_letter index = letters_from (suc index) index []

-- `_short`
unfoldable pub short : Text → Text
short value = if leb (length value) 40 then value else take 39 value ++ 8230 ∷ []

-- `list(dict.fromkeys(values))`, with what was seen before.
unfoldable pub first_ones : List Text → List Text → List Text
first_ones seen [] = []
first_ones seen (v ∷ vs) =
    let again = first_ones seen vs in
    let new = first_ones (v ∷ seen) vs in if member v seen then again else v ∷ new

unfoldable pub longest_of : List Text → ℕ
longest_of [] = 0
longest_of (v ∷ vs) = max (length v) (longest_of vs)

pub record ColumnProfile : Type 0 where
  pub letter : Text
  pub index : ℕ
  pub header : Cell
  pub total : ℕ
  pub filled : ℕ
  pub numeric : ℕ
  pub longest : ℕ
  pub distinct : ℕ
  pub samples : List Text

-- `ColumnProfile.is_rare`: `0 < filled / total <= 0.2`
abbrev pub is_rare : ColumnProfile → Bool
is_rare p = ltb 0 p.filled && leb (5 * p.filled) p.total

unfoldable pub values_in : ℕ → List Row → List Text
values_in index [] = []
values_in index (row ∷ rows) =
    let rest = values_in index rows in
    elim (cell_at row index) [ none ↦ rest | some t ↦ if non_empty t then t ∷ rest else rest ]

-- `_profile`
unfoldable pub profile : ℕ → Row → List Row → ColumnProfile
profile index headers rows =
    let values = values_in index rows in
    let distinct = first_ones [] values in
    record {
      letter = column_letter index;
      index = index;
      header = cell_at headers index;
      total = length rows;
      filled = length values;
      numeric = tally is_numeric values;
      longest = longest_of values;
      distinct = length distinct;
      samples = map short (take samples_per_column distinct);
    }
