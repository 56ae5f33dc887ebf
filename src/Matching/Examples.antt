-- ===== src/Matching/Examples.antt =====
-- Two lines against a list of two products: one whose code is confirmed, one whose code is overruled.
use rfq_workflow_agent.Base.{
  ℕ, Bool, true, Option, none, some, List, [], ◌∷◌, ◌≡◌, refl, map, length, if◌then◌else◌, filter,
}
use rfq_workflow_agent.Base.Text.{Text, txt, text_eq}
use rfq_workflow_agent.Handlers.Effects.{LineItem}
use rfq_workflow_agent.Matching.{
  CatalogItem, Catalog, ScoredItem, MatchedLine, Score, Pair, Verdict, Pipeline, run, asked_of,
  same_length, ranked, put, scored_all, scored, scored_as, scored_code, scored_list, with_scores,
  products_of, products_as, placed, placed_at, one, searched, shortlist, line_of, fromkeys, without,
  questions, verdict_for, pair_of,
}
use rfq_workflow_agent.Matching.Scored.{Answers, Scores}
use rfq_workflow_agent.Matching.Answers.{run-Answers}
use rfq_workflow_agent.Matching.Ranking.{IsRanked, ranked-IsRanked}

abbrev rope : CatalogItem
rope = record { code = txt "R1"; description = txt "rope" }

abbrev drive : CatalogItem
drive = record { code = txt "D1"; description = txt "hard drive" }

abbrev catalog : Catalog
catalog = record {
  size = 2;
  by_code = λ c. elim c [ none ↦ none | some t ↦ if text_eq t (txt "77") then some rope else none ];
  search = λ query limit. drive ∷ rope ∷ [];
}

abbrev no_score : Score
no_score = record { confidence = none; why = [] }

abbrev verdicts_of : List Pair → List Verdict
verdicts_of [] = []
verdicts_of (p ∷ ps) = (text_eq p.0 p.1, []) ∷ verdicts_of ps

abbrev scores_of : List CatalogItem → List Score
scores_of [] = []
scores_of (c ∷ cs) =
    (if text_eq c.code (txt "R1") then record { confidence = some 63; why = [] } else no_score)
    ∷ scores_of cs

abbrev all_scores : List (Text × List CatalogItem) → List (List Score)
all_scores [] = []
all_scores (q ∷ qs) = scores_of q.1 ∷ all_scores qs

abbrev pipeline : Pipeline
pipeline = record { judge = verdicts_of; score = all_scores; ranks = true; limit = 5 }

abbrev line : ℕ → Text → Text → LineItem
line n wanted code = record {
  sr_no = n;
  description = some wanted;
  customer_item_code = some code;
  quantity = some (txt "2 coil");
  uom = none;
  source = [];
}

abbrev rfq : List LineItem
rfq = line 1 (txt "rope") (txt "77") ∷ line 2 (txt "4TB drive") (txt "77") ∷ []

abbrev summary : Option (List MatchedLine) → List (Option Text × List (Option ℕ))
summary none = []
summary (some ms) = map (λ m. (m.item_code, map (λ c. c.confidence) m.candidates)) ms

-- The code that was overruled leads to a shortlist, ranked by score.
runs : summary (run pipeline catalog rfq) ≡ (some (txt "R1"), []) ∷ (none, some 63 ∷ none ∷ []) ∷ []
unfolding run ranked put scored_all scored scored_as scored_code scored_list with_scores products_of
    products_as placed placed_at one searched shortlist line_of fromkeys without questions
    verdict_for pair_of
runs = refl

judges : (ps : List Pair) → same_length ps (verdicts_of ps) ≡ true
judges [] = refl
judges (p ∷ ps) = judges ps

scores_each : (cs : List CatalogItem) → same_length cs (scores_of cs) ≡ true
scores_each [] = refl
scores_each (c ∷ cs) = scores_each cs

scores : (qs : List (Text × List CatalogItem)) → Scores qs (all_scores qs)
scores [] = tt
scores (q ∷ qs) = (scores_each q.1, scores qs)

run-Answers_example :
    (ms : List MatchedLine) × (run pipeline catalog rfq ≡ some ms)
    × Answers catalog pipeline.limit
        (asked_of pipeline catalog rfq)
        (pipeline.judge (asked_of pipeline catalog rfq))
        rfq
        ms
run-Answers_example = run-Answers pipeline catalog rfq judges scores

abbrev unranked : List ScoredItem
unranked =
    record { item = drive; confidence = none; why = [] }
    ∷ record { item = rope; confidence = some 63; why = [] }
    ∷ record { item = rope; confidence = some 100; why = [] }
    ∷ []

ranked-IsRanked_example :
    IsRanked (ranked unranked)
    × ((p : ScoredItem → Bool) → length (filter p (ranked unranked)) ≡ length (filter p unranked))
ranked-IsRanked_example = ranked-IsRanked unranked
