-- ===== src/Matching/Answers.antt =====
-- Every line of an RFQ is answered, over the answers of its lines in Scored.antt.
use rfq_workflow_agent.Base.{
  true, false, Option, none, some, List, [], ◌∷◌, ◌≡◌, refl, inl, inr, map, filter, length, ap,
  arith, ◌==◌, Bool-cases,
}
use rfq_workflow_agent.Base.Text.{Text, txt}
use rfq_workflow_agent.Domain.Regions.{or_blank}
use rfq_workflow_agent.Handlers.Effects.{LineItem}
use rfq_workflow_agent.Matching.{
  CatalogItem, Catalog, How, ScoredItem, MatchedLine, Pair, Verdict, Pipeline, pair_of, line_of,
  unmatched, verdict_for, products_of, shortlist, searched, one, placed_at, placed, asked_of,
  unscored, run, same_length,
}
use rfq_workflow_agent.Matching.Scored.{
  IsAbout, items_of, IsUnset, IsOverruled, IsPlaced, Answers, Scores, Placed, scored_all-Answers,
}

map-items :
    (cs : List CatalogItem)
    → map
        (λ (c : ScoredItem). c.item)
        (map (λ c. record { item = c; confidence = none; why = [] }) cs)
      ≡ cs
map-items [] = refl
map-items (c ∷ cs) = ap (λ xs. c ∷ xs) (map-items cs)

module _ (p : Pipeline) (catalog : Catalog) where
  shortlist-items :
      (i : LineItem) (why : Text) (how : How) (found : List CatalogItem)
      → IsAbout i (shortlist i why how found)
        × IsUnset (shortlist i why how found)
        × ((shortlist i why how found).query ≡ or_blank i.description)
        × (items_of (shortlist i why how found) ≡ found)
  unfolding shortlist line_of
  shortlist-items i why how [] = ((refl, refl, refl, refl, refl), (refl, refl), refl, refl)
  shortlist-items i why how (c ∷ cs) =
      ((refl, refl, refl, refl, refl), (refl, refl), refl, map-items (c ∷ cs))

  searched-IsPlaced :
      (asked : List Pair) (verdicts : List Verdict) (i : LineItem) (why : Text) (how : How)
      → IsOverruled catalog asked verdicts i
      → IsAbout i (searched p catalog i why how)
        × IsPlaced catalog p.limit asked verdicts i (searched p catalog i why how)
  unfolding searched
  searched-IsPlaced asked verdicts i why how out =
      let (about, unset, query, items) =
        shortlist-items i why how (catalog.search (or_blank i.description) p.limit) in
      (about, inr (out, (unset, query, λ q. ap (λ xs. length (filter q xs)) items)))

  judged-IsPlaced :
      (asked : List Pair) (verdicts : List Verdict) (i : LineItem) (row : CatalogItem)
      (verdict : Option Verdict)
      → catalog.by_code i.customer_item_code ≡ some row
      → verdict_for (pair_of i row) asked verdicts ≡ verdict
      → IsAbout i (one p catalog i (some row) verdict)
        × IsPlaced catalog p.limit asked verdicts i (one p catalog i (some row) verdict)
  unfolding one line_of
  judged-IsPlaced asked verdicts i row none found e =
      searched-IsPlaced asked verdicts i _ How.code_rejected (inr (row, found, rw e refl))
  judged-IsPlaced asked verdicts i row (some (false, why)) found e =
      searched-IsPlaced asked verdicts i _ How.code_rejected (inr (row, found, rw e refl))
  judged-IsPlaced asked verdicts i row (some (true, why)) found e =
      ((refl, refl, refl, refl, refl), inl (row, why, found, e, refl, refl))

  placed_at-IsPlaced :
      (asked : List Pair) (verdicts : List Verdict) (i : LineItem) (row : Option CatalogItem)
      → catalog.by_code i.customer_item_code ≡ row
      → IsAbout i (placed_at p catalog asked verdicts i row)
        × IsPlaced catalog p.limit asked verdicts i (placed_at p catalog asked verdicts i row)
  unfolding placed_at one
  placed_at-IsPlaced asked verdicts i none found =
      searched-IsPlaced asked verdicts i _ How.by_search (inl found)
  placed_at-IsPlaced asked verdicts i (some row) found =
      judged-IsPlaced asked verdicts i row (verdict_for (pair_of i row) asked verdicts) found refl

  all-Placed :
      (asked : List Pair) (verdicts : List Verdict) (is : List LineItem)
      → Placed catalog p.limit asked verdicts is (map (placed p catalog asked verdicts) is)
  unfolding placed
  all-Placed asked verdicts [] = tt
  all-Placed asked verdicts (i ∷ is) = (
    placed_at-IsPlaced asked verdicts i (catalog.by_code i.customer_item_code) refl,
    all-Placed asked verdicts is,
  )

  unmatched-Answers :
      (asked : List Pair) (verdicts : List Verdict) (why : Text) (is : List LineItem)
      → catalog.size ≡ 0
      → Answers catalog p.limit asked verdicts is (map (λ i. unmatched i why) is)
  unfolding unmatched line_of
  unmatched-Answers asked verdicts why [] e = tt
  unmatched-Answers asked verdicts why (i ∷ is) e = (
    (refl, refl, refl, refl, refl),
    inr (e, (refl, refl), λ q. refl),
    unmatched-Answers asked verdicts why is e,
  )

  -- Where the judge gives a verdict for each pair that it is asked about and the scorer a score for
  -- each product, every line of an RFQ has one answer, in the order of the lines, in which what the
  -- customer wrote stands as it was read. The product is the one that the quoted code names, and the
  -- judge agreed to it; or the code names none or the judge did not agree, no product is set, and the
  -- shortlist holds exactly what the catalogue finds for the line's own description; or the catalogue is
  -- empty, and there is neither a product nor a shortlist.
  pub run-Answers :
      (is : List LineItem)
      → ((ps : List Pair) → same_length ps (p.judge ps) ≡ true)
      → ((qs : List (Text × List CatalogItem)) → Scores qs (p.score qs))
      → (ms : List MatchedLine) × (run p catalog is ≡ some ms)
        × Answers catalog p.limit (asked_of p catalog is) (p.judge (asked_of p catalog is)) is ms
  unfolding run
  run-Answers [] judges scores = ([], refl, tt)
  run-Answers (i ∷ is) judges scores =
      let asked = asked_of p catalog (i ∷ is) in
      let verdicts = p.judge asked in
      let asked_scores : List (Text × List CatalogItem) =
        map (λ m. (m.verbatim, products_of m)) (unscored p catalog (i ∷ is)) in
      elim (Bool-cases (catalog.size == 0)) [
        | inl empty ↦ (
          map (λ l. unmatched l (txt "There is no catalogue to match against.")) (i ∷ is),
          rw (run, empty) refl,
          unmatched-Answers asked verdicts (txt "There is no catalogue to match against.") (i ∷ is)
              (ground (arith, empty)),
        )
        | inr full ↦
            let (ns, e, answers) =
              scored_all-Answers catalog p.limit asked verdicts p.ranks (i ∷ is)
                (unscored p catalog (i ∷ is)) (p.score asked_scores)
                (all-Placed asked verdicts (i ∷ is)) (scores asked_scores) in
            (ns, rw (run, full, judges asked, e) refl, answers)
      ]
