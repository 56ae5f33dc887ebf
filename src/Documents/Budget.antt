-- ===== src/Documents/Budget.antt =====
-- src/infrastructure/documents/budget.py: how much of one email is read.
pub mod Bounds
use rfq_workflow_agent.Base.{
  ℕ, zero, suc, ◌+◌, ◌-◌, ◌*◌, ◌/◌, Bool, true, false, Option, none, some, List, ◌++◌,
  if◌then◌else◌, ltb, leb, length, take, drop,
}
use rfq_workflow_agent.Base.Text.{Text, txt}
use rfq_workflow_agent.Base.Digits.{show}

pub record Budget : Type 0 where
  pub max_attachments : ℕ
  pub max_total_bytes : ℕ
  pub max_single_bytes : ℕ
  pub inline_noise_bytes : ℕ
  pub max_pdf_pages_text : ℕ
  pub max_pdf_pages_rasterized : ℕ
  pub max_pdf_pages_with_tables : ℕ
  pub max_spreadsheet_rows : ℕ
  pub max_spreadsheet_cols : ℕ
  pub max_images : ℕ
  pub max_image_edge : ℕ
  pub max_archive_depth : ℕ
  pub max_archive_entries : ℕ
  pub max_archive_uncompressed : ℕ
  pub max_chars_per_document : ℕ

abbrev pub default_budget : Budget
default_budget = record {
  max_attachments = 20;
  max_total_bytes = 40 * 1048576;
  max_single_bytes = 25 * 1048576;
  inline_noise_bytes = 15 * 1024;
  max_pdf_pages_text = 100;
  max_pdf_pages_rasterized = 20;
  max_pdf_pages_with_tables = 20;
  max_spreadsheet_rows = 5000;
  max_spreadsheet_cols = 64;
  max_images = 10;
  max_image_edge = 1568;
  max_archive_depth = 1;
  max_archive_entries = 50;
  max_archive_uncompressed = 200 * 1048576;
  max_chars_per_document = 60000;
}

-- `BudgetTracker`; its budget is an argument of `may_open`.
pub record Tracker : Type 0 where
  pub attachments_seen : ℕ
  pub bytes_seen : ℕ
  pub images_kept : ℕ

abbrev pub new_tracker : Tracker
new_tracker = record { attachments_seen = 0; bytes_seen = 0; images_kept = 0 }

abbrev pub too_many_attachments : Text
too_many_attachments = txt "too_many_attachments"

abbrev pub file_too_large : Text
file_too_large = txt "file_too_large"

abbrev pub total_size_exceeded : Text
total_size_exceeded = txt "total_attachment_size_exceeded"

-- `BudgetTracker.may_open`: the code that blocks the file, and the totals after it.
unfoldable pub may_open : Budget → ℕ → Tracker → Option Text × Tracker
may_open b size t =
    if leb b.max_attachments t.attachments_seen
    then (some too_many_attachments, t)
    else if ltb b.max_single_bytes size
    then (some file_too_large, record t { attachments_seen = t.attachments_seen + 1 })
    else if ltb b.max_total_bytes (t.bytes_seen + size)
    then (some total_size_exceeded, record t { attachments_seen = t.attachments_seen + 1 })
    else (
      none,
      record t { attachments_seen = t.attachments_seen + 1; bytes_seen = t.bytes_seen + size },
    )

abbrev pub marker : Text → Text
marker dropped = txt "\n\n[... " ++ (dropped ++ txt " characters omitted ...]\n\n")

-- `text[:keep]` and `text[-keep:]` for a `keep` from 0; Python's `text[-0:]` is the whole text.
unfoldable pub head_of : ℕ → Text → Text
head_of keep text = take keep text

unfoldable pub tail_of : ℕ → Text → Text
tail_of zero text = text
tail_of (suc k) text = drop (length text - suc k) text

-- `truncate`. Below a limit of 64 the number to keep is negative, `- back`: the slices then leave out
-- `back` characters at the end and at the start, and the number that is told grows by twice `back`.
unfoldable pub truncate : Text → ℕ → Text × Bool
unfolding head_of tail_of
truncate text limit =
    let keep = (limit - 64) / 2 in
    let back = (65 - limit) / 2 in
    if leb (length text) limit
    then (text, false)
    else if leb 64 limit
    then (head_of keep text ++ (marker (show (length text - keep * 2)) ++ tail_of keep text), true)
    else (
      take (length text - back) text ++ (marker (show (length text + back * 2)) ++ drop back text),
      true,
    )
