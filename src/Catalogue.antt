-- ===== src/Catalogue.antt =====
-- `CatalogService` of src/services/catalog.py: the product list in memory, the snapshot on disk, and
-- the loop that renews both from the sheet. The text of a sheet, its index and the outside's answers
-- are parameters; `index` stands for `parse_csv` and `Catalog.from_rows`, and is `none` where they
-- raise. Sleeping is a number of seconds that the loop returns.
pub mod Renewal
mod Examples
use rfq_workflow_agent.Base.{
  ℕ, ◌*◌, ◌==◌, Bool, true, false, not, Option, none, some, List, [], ◌∷◌, if◌then◌else◌,
}
use rfq_workflow_agent.Base.Text.{Text}

-- What becomes of a fetch of the sheet: its text, `SheetUnavailable`, or another exception.
pub data Fetched : Type 0 where
  sheet : Text → Fetched
  unavailable : Fetched
  crashed : Fetched

-- What `refresh` ends in.
pub data Refreshed : Type 0 where
  renewed : Refreshed
  sheet_unavailable : Refreshed
  failed : Refreshed

-- `current` is `_catalog`; `snapshot` is the text on disk, if there is one.
pub record Service (C : Type 0) : Type 0 where
  pub has_sheet : Bool
  pub refresh_minutes : ℕ
  pub current : C
  pub snapshot : Option Text
  pub has_task : Bool

-- What becomes of `Snapshot.write`, which replaces the sheet's text first and writes a note beside it
-- last: all is written, the text without the note, or nothing. The last two raise.
pub data Written : Type 0 where
  whole : Written
  without_note : Written
  nothing : Written

-- One answer of the outside to `refresh`: the fetch, and what becomes of the snapshot.
pub record Answer : Type 0 where
  pub fetched : Fetched
  pub written : Written

module _ {C : Type 0} (size : C → ℕ) (empty : C) (index : Text → Option C) where
  -- `load`, which indexes what is on disk; no snapshot has no rows. It raises, and is `none`, where the
  -- text cannot be indexed.
  unfoldable pub load_snapshot : Service C → Option (Service C)
  load_snapshot s = elim (s.snapshot) [
    | none ↦ some (record s { current = empty })
    | some text ↦ elim (index text) [ none ↦ none | some c ↦ some (record s { current = c }) ]
  ]

  -- The end of `refresh`, by what becomes of the snapshot.
  unfoldable pub written_as : Service C → Text → C → Written → Refreshed × Service C
  written_as s text c Written.whole =
      (Refreshed.renewed, record s { current = c; snapshot = some text })
  written_as s text c Written.without_note = (Refreshed.failed, record s { snapshot = some text })
  written_as s text c Written.nothing = (Refreshed.failed, s)

  -- `refresh` with an indexed text, which is kept only where it holds products.
  unfoldable pub take_over : Service C → Text → C → Written → Refreshed × Service C
  unfolding written_as
  take_over s text c written =
      if size c == 0 then (Refreshed.sheet_unavailable, s) else written_as s text c written

  unfoldable pub parsed : Service C → Text → Option C → Written → Refreshed × Service C
  unfolding take_over
  parsed s text none written = (Refreshed.failed, s)
  parsed s text (some c) written = take_over s text c written

  unfoldable pub fetched_as : Service C → Fetched → Written → Refreshed × Service C
  unfolding parsed
  fetched_as s (Fetched.sheet t) written = parsed s t (index t) written
  fetched_as s Fetched.unavailable written = (Refreshed.sheet_unavailable, s)
  fetched_as s Fetched.crashed written = (Refreshed.failed, s)

  -- `refresh`
  unfoldable pub refresh : Service C → Answer → Refreshed × Service C
  unfolding fetched_as
  refresh s a =
      if s.has_sheet then fetched_as s a.fetched a.written else (Refreshed.sheet_unavailable, s)

  -- The delay that one round of `_run` ends with.
  unfoldable pub delay_after : Service C → Refreshed → ℕ
  delay_after s Refreshed.renewed = s.refresh_minutes * 60
  delay_after s Refreshed.sheet_unavailable = 2 * 60
  delay_after s Refreshed.failed = 2 * 60

  -- The rounds of `_run`, one for each answer: the delays, and the service after them.
  unfoldable pub rounds : Service C → List Answer → List ℕ × Service C
  unfolding refresh delay_after
  rounds s [] = ([], s)
  rounds s (a ∷ rest) =
      let (outcome, t) = refresh s a in
      let (delays, last) = rounds t rest in (delay_after t outcome ∷ delays, last)

  -- `start` and `stop`
  unfoldable pub start : Service C → Service C
  start s = if s.has_sheet then record s { has_task = true } else s

  unfoldable pub stop : Service C → Service C
  stop s = record s { has_task = false }
