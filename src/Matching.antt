-- ===== src/Matching.antt =====
-- `MatchingPipeline` of src/services/matching/pipeline.py, over the records of models.py: the lines of
-- one RFQ against the product list. The product list, the judge and the scorer are parameters. An
-- exception, which `zip` raises on lists of different lengths, is `none`.
mod Models
pub mod Scored
pub mod Answers
pub mod Ranking
mod Examples
pub use Models.*
use rfq_workflow_agent.Base.{
  ℕ, Bool, true, false, not, ◌&&◌, Option, none, some, List, [], ◌∷◌, ◌++◌, map, if◌then◌else◌, leb,
  ◌==◌,
}
use rfq_workflow_agent.Base.Text.{Text, txt, text_eq, strip, non_empty}
use rfq_workflow_agent.Domain.Regions.{or_blank}
use rfq_workflow_agent.Handlers.Effects.{LineItem}

-- `_pair`
unfoldable pub pair_of : LineItem → CatalogItem → Pair
pair_of line row = (or_blank line.description, row.description)

-- `_and`
unfoldable pub and_said : Text → Text → Text
and_said reason said = if non_empty said then strip (reason ++ (txt " " ++ said)) else reason

-- `_line`
unfoldable pub line_of :
    LineItem → Text → Option CatalogItem → How → Text → List CatalogItem → MatchedLine
line_of line query product how why candidates = record {
  index = line.sr_no;
  verbatim = or_blank line.description;
  query = query;
  customer_code = line.customer_item_code;
  quantity = line.quantity;
  uom = line.uom;
  item_code = elim product [ none ↦ none | some p ↦ some p.code ];
  item = product;
  how = how;
  why = why;
  candidates = map (λ c. record { item = c; confidence = none; why = [] }) candidates;
  confidence = none;
}

-- `_unmatched`
unfoldable pub unmatched : LineItem → Text → MatchedLine
unmatched line why = line_of line [] none How.nothing why []

abbrev rejected : Text → Text
rejected code =
    txt "The customer's code names "
    ++ (code
        ++ txt
            ", which is not what this line asked for - the code was dropped and the sheet searched by the line's own words instead.")

abbrev has_code : Option Text → Bool
has_code none = false
has_code (some c) = non_empty c

-- `dict.fromkeys`: each pair once, in the order of the first.
abbrev pub pair_eq : Pair → Pair → Bool
pair_eq (a, b) (c, d) = text_eq a c && text_eq b d

unfoldable pub without : Pair → List Pair → List Pair
without p [] = []
without p (q ∷ qs) = let rest = without p qs in if pair_eq p q then rest else q ∷ rest

unfoldable pub fromkeys : List Pair → List Pair
fromkeys [] = []
fromkeys (p ∷ ps) = p ∷ without p (fromkeys ps)

-- `verdicts.get(pair)`, of the pairs and their verdicts.
unfoldable pub verdict_for : Pair → List Pair → List Verdict → Option Verdict
verdict_for p [] vs = none
verdict_for p (q ∷ qs) [] = none
verdict_for p (q ∷ qs) (v ∷ vs) =
    let rest = verdict_for p qs vs in if pair_eq p q then some v else rest

abbrev pub same_length : {A B : Type 0} → List A → List B → Bool
same_length [] [] = true
same_length [] (b ∷ bs) = false
same_length (a ∷ rest) [] = false
same_length (a ∷ rest) (b ∷ bs) = same_length rest bs

-- `verdict or (False, "")`
abbrev pub verdict_or : Option Verdict → Verdict
verdict_or none = (false, [])
verdict_or (some v) = v

-- `_products`, by what became of the line.
unfoldable pub products_as : How → MatchedLine → List CatalogItem
products_as How.code_confirmed m = elim (m.item) [
  | none ↦ map (λ c. c.item) m.candidates
  | some p ↦ p ∷ []
]
products_as _ m = map (λ c. c.item) m.candidates

unfoldable pub products_of : MatchedLine → List CatalogItem
unfolding products_as
products_of m = products_as m.how m

-- The key `(confidence is None, -(confidence or 0))`: whether the first comes no later.
abbrev pub ranks_before : Option ℕ → Option ℕ → Bool
ranks_before (some a) (some b) = leb b a
ranks_before (some a) none = true
ranks_before none (some b) = false
ranks_before none none = true

-- `candidates.sort`, which is stable.
unfoldable pub put : ScoredItem → List ScoredItem → List ScoredItem
put c [] = c ∷ []
put c (d ∷ ds) =
    let rest = put c ds in if ranks_before c.confidence d.confidence then c ∷ d ∷ ds else d ∷ rest

unfoldable pub ranked : List ScoredItem → List ScoredItem
ranked [] = []
ranked (c ∷ cs) = put c (ranked cs)

-- The scored candidates; `none` where there are more of one than of the other.
unfoldable pub with_scores : List ScoredItem → List Score → Option (List ScoredItem)
with_scores [] [] = some []
with_scores [] (s ∷ ss) = none
with_scores (c ∷ cs) [] = none
with_scores (c ∷ cs) (s ∷ ss) = elim (with_scores cs ss) [
  | none ↦ none
  | some rest ↦ some (record { item = c.item; confidence = s.confidence; why = s.why } ∷ rest)
]

-- The two ends of `_scored`.
unfoldable pub scored_code : MatchedLine → List Score → MatchedLine
scored_code m scores = record m { confidence = elim scores [ [] ↦ none | s ∷ rest ↦ s.confidence ] }

unfoldable pub scored_list : Bool → MatchedLine → List Score → Option MatchedLine
scored_list ranks m scores = elim (with_scores m.candidates scores) [
  | none ↦ none
  | some cs ↦ some (record m { candidates = if ranks then ranked cs else cs })
]

-- `_scored`, by what became of the line.
unfoldable pub scored_as : Bool → How → MatchedLine → List Score → Option MatchedLine
scored_as ranks How.code_confirmed m scores = some (scored_code m scores)
scored_as ranks _ m scores = scored_list ranks m scores

unfoldable pub scored : Bool → MatchedLine → List Score → Option MatchedLine
unfolding scored_as
scored ranks m scores = scored_as ranks m.how m scores

unfoldable pub scored_all : Bool → List MatchedLine → List (List Score) → Option (List MatchedLine)
scored_all ranks [] [] = some []
scored_all ranks [] (s ∷ ss) = none
scored_all ranks (m ∷ ms) [] = none
scored_all ranks (m ∷ ms) (s ∷ ss) = elim (scored ranks m s) [
  | none ↦ none
  | some n ↦ elim (scored_all ranks ms ss) [ none ↦ none | some rest ↦ some (n ∷ rest) ]
]

-- The end of `_searched`, by what was found.
unfoldable pub shortlist : LineItem → Text → How → List CatalogItem → MatchedLine
shortlist line why how [] =
    line_of line (or_blank line.description) none How.nothing
      (and_said why (txt "The sheet had nothing to offer for this line.")) []
shortlist line why how (c ∷ cs) = line_of line (or_blank line.description) none how why (c ∷ cs)

module _ (p : Pipeline) (catalog : Catalog) where
  -- `_searched`, whose query is the line's own description in every branch.
  unfoldable pub searched : LineItem → Text → How → MatchedLine
  unfolding shortlist
  searched line why how =
      shortlist line why how (catalog.search (or_blank line.description) p.limit)

  -- `_one`
  unfoldable pub one : LineItem → Option CatalogItem → Option Verdict → MatchedLine
  one line none verdict =
      searched line
        (if has_code line.customer_item_code
          then txt
              "No row carries this customer code, so the sheet was searched by the requested description."
          else txt
              "The customer quoted no code, so the sheet was searched by the requested description.")
        How.by_search
  one line (some row) verdict =
      let (same, why) = verdict_or verdict in
      if same
      then line_of line [] (some row) How.code_confirmed
          (and_said
            (txt "The customer's code names this product, and it is what the line asked for.") why)
          []
      else searched line (and_said (rejected row.code) why) How.code_rejected

  -- The questions of `_judged`, before they are made distinct.
  unfoldable pub questions : List LineItem → List Pair
  questions [] = []
  questions (i ∷ is) = elim (catalog.by_code i.customer_item_code) [
    | none ↦ questions is
    | some row ↦ pair_of i row ∷ questions is
  ]

  -- What `run` knows of one line before it is scored, by the row that its code names.
  unfoldable pub placed_at : List Pair → List Verdict → LineItem → Option CatalogItem → MatchedLine
  placed_at asked verdicts i none = one i none none
  placed_at asked verdicts i (some row) =
      one i (some row) (verdict_for (pair_of i row) asked verdicts)

  unfoldable pub placed : List Pair → List Verdict → LineItem → MatchedLine
  unfolding placed_at
  placed asked verdicts i = placed_at asked verdicts i (catalog.by_code i.customer_item_code)

  abbrev pub asked_of : List LineItem → List Pair
  asked_of is = fromkeys (questions is)

  abbrev pub unscored : List LineItem → List MatchedLine
  unscored is = map (placed (asked_of is) (p.judge (asked_of is))) is

  -- `run`; the zip of the pairs with the verdicts is strict.
  unfoldable pub run : List LineItem → Option (List MatchedLine)
  run [] = some []
  run (i ∷ rest) =
      let is = i ∷ rest in
      if catalog.size == 0
      then some (map (λ i. unmatched i (txt "There is no catalogue to match against.")) is)
      else if not (same_length (asked_of is) (p.judge (asked_of is)))
      then none
      else scored_all p.ranks (unscored is)
          (p.score (map (λ m. (m.verbatim, products_of m)) (unscored is)))
