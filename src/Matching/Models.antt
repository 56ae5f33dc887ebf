-- ===== src/Matching/Models.antt =====
-- The records of src/services/matching/models.py, `Score` of scoring.py, and what the pipeline is given.
use rfq_workflow_agent.Base.{ℕ, Bool, Option, List}
use rfq_workflow_agent.Base.Text.{Text}

-- What the pipeline uses of a product.
pub record CatalogItem : Type 0 where
  pub code : Text
  pub description : Text

-- `candidates` is what `search` finds for a text, within a limit, the best first.
pub record Catalog : Type 0 where
  pub size : ℕ
  pub by_code : Option Text → Option CatalogItem
  pub search : Text → (limit : ℕ) → List CatalogItem

pub data How : Type 0 where
  code_confirmed : How
  code_rejected : How
  by_search : How
  nothing : How

pub record ScoredItem : Type 0 where
  pub item : CatalogItem
  pub confidence : Option ℕ
  pub why : Text

pub record MatchedLine : Type 0 where
  pub index : ℕ
  pub verbatim : Text
  pub query : Text
  pub customer_code : Option Text
  pub quantity : Option Text
  pub uom : Option Text
  pub item_code : Option Text
  pub item : Option CatalogItem
  pub how : How
  pub why : Text
  pub candidates : List ScoredItem
  pub confidence : Option ℕ

pub record Score : Type 0 where
  pub confidence : Option ℕ
  pub why : Text

abbrev pub Pair : Type 0
Pair = Text × Text

abbrev pub Verdict : Type 0
Verdict = Bool × Text

-- What the pipeline is given. A verdict agrees or not, and says why.
pub record Pipeline : Type 0 where
  pub judge : List Pair → List Verdict
  pub score : List (Text × List CatalogItem) → List (List Score)
  pub ranks : Bool
  pub limit : ℕ
