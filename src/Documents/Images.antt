-- ===== src/Documents/Images.antt =====
-- `_allocate` and `_fit_images` of src/infrastructure/documents/loader.py: the images of one email
-- share its budget.
pub mod Shares
use rfq_workflow_agent.Base.{
  ℕ, zero, suc, ◌+◌, ◌-◌, ◌/◌, Bool, true, false, List, [], ◌∷◌, map, min, if◌then◌else◌, ltb, leb,
  ◌==◌, length, take,
}
use rfq_workflow_agent.Base.Text.{txt}
use rfq_workflow_agent.Documents.Models.{Document, warn}

abbrev pub total_of : List ℕ → ℕ
total_of [] = 0
total_of (n ∷ ns) = n + total_of ns

-- `[1 if index < total else 0 for index in range(len(wanted))]`
unfoldable pub one_each : ℕ → List ℕ → List ℕ
one_each total [] = []
one_each zero (n ∷ ns) = 0 ∷ one_each zero ns
one_each (suc t) (n ∷ ns) = 1 ∷ one_each t ns

-- The loop of `_allocate`, which hands out what is spare in the order of the files.
unfoldable pub hand_out : ℕ → ℕ → List ℕ → List ℕ
hand_out share spare [] = []
hand_out share spare (n ∷ ns) =
    let given = min n share in
    let extra = min spare (n - given) in (given + extra) ∷ hand_out share (spare - extra) ns

-- `_allocate`. The code divides by the number of claimants, and is never called with none.
unfoldable pub allocate : List ℕ → ℕ → List ℕ
allocate wanted total =
    let share = total / length wanted in
    if share == 0
    then one_each total wanted
    else hand_out share (total - total_of (map (λ n. min n share) wanted)) wanted

abbrev pub image_count : Document → ℕ
image_count d = length d.images

-- The images that the documents ask for, of those that have any.
unfoldable pub wanted_of : List Document → List ℕ
wanted_of [] = []
wanted_of (d ∷ ds) =
    let rest = wanted_of ds in if image_count d == 0 then rest else image_count d ∷ rest

-- The body of the loop of `_fit_images`.
unfoldable pub cut_images : ℕ → Document → Document
cut_images allowed d =
    if ltb allowed (image_count d)
    then record (warn (txt "images_truncated") (record d { images = take allowed d.images })) {
      truncated = true;
    }
    else d

-- The allocation goes to the documents with images, in their order.
unfoldable pub spread : List ℕ → List Document → List Document
spread [] ds = ds
spread (a ∷ allowed) [] = []
spread (a ∷ allowed) (d ∷ ds) =
    let others = spread (a ∷ allowed) ds in
    let rest = spread allowed ds in if image_count d == 0 then d ∷ others else cut_images a d ∷ rest

-- `_fit_images`
unfoldable pub fit_images : ℕ → List Document → List Document
fit_images max_images ds =
    if leb (total_of (wanted_of ds)) max_images
    then ds
    else spread (allocate (wanted_of ds) max_images) ds
