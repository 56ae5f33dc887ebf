-- ===== src/Matching/Scored.antt =====
-- What an answer to a line of an RFQ says, and that scores leave it so.
use rfq_workflow_agent.Base.{
  ℕ, Bool, true, false, none, some, List, [], ◌∷◌, ◌≡◌, refl, ◌∙◌, ◌⊎◌, inl, inr, map, filter,
  length, ap, sym, arith, if◌then◌else◌,
}
use rfq_workflow_agent.Base.Text.{Text}
use rfq_workflow_agent.Domain.Regions.{or_blank}
use rfq_workflow_agent.Handlers.Effects.{LineItem}
use rfq_workflow_agent.Matching.{
  CatalogItem, Catalog, How, ScoredItem, MatchedLine, Score, Pair, Verdict, pair_of, verdict_for,
  verdict_or, products_as, products_of, ranked, with_scores, scored_code, scored_list, scored_as,
  scored, scored_all, same_length,
}
use rfq_workflow_agent.Matching.Ranking.{ranked-IsRanked}

-- The answer is about this line: what the customer wrote stands in it as it was read.
abbrev pub IsAbout : LineItem → MatchedLine → Type 0
IsAbout i m =
    (m.index ≡ i.sr_no)
    × (m.verbatim ≡ or_blank i.description)
    × (m.customer_code ≡ i.customer_item_code)
    × (m.quantity ≡ i.quantity)
    × (m.uom ≡ i.uom)

-- The products of the shortlist.
abbrev pub items_of : MatchedLine → List CatalogItem
items_of m = map (λ c. c.item) m.candidates

-- As many products of any kind in one list as in the other.
abbrev pub SameItems : List CatalogItem → List CatalogItem → Type 0
SameItems xs ys = (p : CatalogItem → Bool) → length (filter p xs) ≡ length (filter p ys)

abbrev pub IsUnset : MatchedLine → Type 0
IsUnset m = (m.item_code ≡ none) × (m.item ≡ none)

-- The answer's product is the one that the quoted code names, and the judge agreed to it.
abbrev pub IsConfirmed : Catalog → List Pair → List Verdict → LineItem → MatchedLine → Type 0
IsConfirmed catalog asked verdicts i m =
    (row : CatalogItem) × (why : Text) × (catalog.by_code i.customer_item_code ≡ some row)
    × (verdict_for (pair_of i row) asked verdicts ≡ some (true, why))
    × (m.item_code ≡ some row.code)
    × (m.item ≡ some row)

-- The quoted code names no product, or one that the judge did not agree to.
abbrev pub IsOverruled : Catalog → List Pair → List Verdict → LineItem → Type 0
IsOverruled catalog asked verdicts i =
    (catalog.by_code i.customer_item_code ≡ none)
    ⊎ ((row : CatalogItem) × (catalog.by_code i.customer_item_code ≡ some row)
        × ((verdict_or (verdict_for (pair_of i row) asked verdicts)).0 ≡ false))

-- The answer carries no product, and its shortlist is what the catalogue has for the line's words.
abbrev pub IsSearched : Catalog → ℕ → LineItem → MatchedLine → Type 0
IsSearched catalog limit i m =
    IsUnset m
    × (m.query ≡ or_blank i.description)
    × SameItems (items_of m) (catalog.search (or_blank i.description) limit)

-- How a line is answered where there is a catalogue, and where it is empty.
abbrev pub IsPlaced : Catalog → ℕ → List Pair → List Verdict → LineItem → MatchedLine → Type 0
IsPlaced catalog limit asked verdicts i m =
    IsConfirmed catalog asked verdicts i m
    ⊎ (IsOverruled catalog asked verdicts i × IsSearched catalog limit i m)

abbrev pub IsAnswered : Catalog → ℕ → List Pair → List Verdict → LineItem → MatchedLine → Type 0
IsAnswered catalog limit asked verdicts i m =
    IsPlaced catalog limit asked verdicts i m
    ⊎ ((catalog.size ≡ 0) × IsUnset m × SameItems (items_of m) [])

-- One answer for each line, in their order.
abbrev pub Answers :
    Catalog → ℕ → List Pair → List Verdict → List LineItem → List MatchedLine → Type 0
Answers catalog limit asked verdicts [] [] = Unit
Answers catalog limit asked verdicts [] (m ∷ ms) = ⊥
Answers catalog limit asked verdicts (i ∷ is) [] = ⊥
Answers catalog limit asked verdicts (i ∷ is) (m ∷ ms) =
    IsAbout i m
    × IsAnswered catalog limit asked verdicts i m
    × Answers catalog limit asked verdicts is ms

-- The line as it is asked about, without its scores.
abbrev SameAnswer : MatchedLine → MatchedLine → Type 0
SameAnswer m n =
    (n.index ≡ m.index)
    × (n.verbatim ≡ m.verbatim)
    × (n.customer_code ≡ m.customer_code)
    × (n.quantity ≡ m.quantity)
    × (n.uom ≡ m.uom)
    × (n.query ≡ m.query)
    × (n.item_code ≡ m.item_code)
    × (n.item ≡ m.item)
    × SameItems (items_of n) (items_of m)

-- The scorer answers each question with a score for each product.
abbrev pub Scores : List (Text × List CatalogItem) → List (List Score) → Type 0
Scores [] [] = Unit
Scores [] (s ∷ ss) = ⊥
Scores (q ∷ qs) [] = ⊥
Scores (q ∷ qs) (s ∷ ss) = (same_length q.1 s ≡ true) × Scores qs ss

filter-items :
    (p : CatalogItem → Bool) (cs : List ScoredItem)
    → length (filter p (map (λ c. c.item) cs)) ≡ length (filter (λ c. p c.item) cs)
filter-items p [] = refl
filter-items p (c ∷ cs) = ground (arith, filter-items p cs)

-- Ranked candidates are the same products.
ranked-SameItems :
    (ranks : Bool) (cs : List ScoredItem)
    → SameItems (map (λ c. c.item) (if ranks then ranked cs else cs)) (map (λ c. c.item) cs)
ranked-SameItems false cs = λ p. refl
ranked-SameItems true cs = λ p.
    filter-items p (ranked cs) ∙ ((ranked-IsRanked cs).1 (λ c. p c.item) ∙ sym (filter-items p cs))

with_scores-some :
    (cs : List ScoredItem) (ss : List Score)
    → same_length (map (λ c. c.item) cs) ss ≡ true
    → (ds : List ScoredItem) × (with_scores cs ss ≡ some ds)
      × (map (λ c. c.item) ds ≡ map (λ c. c.item) cs)
unfolding with_scores
with_scores-some [] [] h = ([], refl, refl)
with_scores-some [] (s ∷ ss) h = cc
with_scores-some (c ∷ cs) [] h = cc
with_scores-some (c ∷ cs) (s ∷ ss) h =
    let (ds, e, items) = with_scores-some cs ss h in
    (
      record { item = c.item; confidence = s.confidence; why = s.why } ∷ ds,
      rw e refl,
      ap (λ xs. c.item ∷ xs) items,
    )

scored_list-some :
    (ranks : Bool) (m : MatchedLine) (ss : List Score)
    → same_length (map (λ c. c.item) m.candidates) ss ≡ true
    → (n : MatchedLine) × (scored_list ranks m ss ≡ some n) × SameAnswer m n
unfolding scored_list
scored_list-some ranks m ss h =
    let (ds, e, items) = with_scores-some m.candidates ss h in
    (
      record m { candidates = if ranks then ranked ds else ds },
      rw (scored_list, e) refl,
      (refl, refl, refl, refl, refl, refl, refl, refl, rw (← items) (ranked-SameItems ranks ds)),
    )

scored_as-some :
    (ranks : Bool) (how : How) (m : MatchedLine) (ss : List Score)
    → same_length (products_as how m) ss ≡ true
    → (n : MatchedLine) × (scored_as ranks how m ss ≡ some n) × SameAnswer m n
unfolding scored_as products_as scored_code
scored_as-some ranks How.code_confirmed m ss h =
    (scored_code m ss, refl, (refl, refl, refl, refl, refl, refl, refl, refl, λ p. refl))
scored_as-some ranks How.code_rejected m ss h = scored_list-some ranks m ss h
scored_as-some ranks How.by_search m ss h = scored_list-some ranks m ss h
scored_as-some ranks How.nothing m ss h = scored_list-some ranks m ss h

-- Scored lines answer what the lines before them answered.
Answers-same :
    (catalog : Catalog) (limit : ℕ) (asked : List Pair) (verdicts : List Verdict) (i : LineItem)
    (m n : MatchedLine)
    → SameAnswer m n
    → IsAbout i m × IsPlaced catalog limit asked verdicts i m
    → IsAbout i n × IsPlaced catalog limit asked verdicts i n
Answers-same catalog limit asked verdicts i m n (a, b, c, d, e, f, g, h, k) (about, placed_so) =
    let (a', b', c', d', e') = about in
    let so : IsPlaced catalog limit asked verdicts i n = elim placed_so [
      | inl (row, why, found, agreed, x, y) ↦ inl (row, why, found, agreed, g ∙ x, h ∙ y)
      | inr (out, ((x, y), query, items)) ↦
          inr (out, ((g ∙ x, h ∙ y), f ∙ query, λ p. k p ∙ items p))
    ] in
    ((a ∙ a', b ∙ b', c ∙ c', d ∙ d', e ∙ e'), so)

-- One placed line for each line of the RFQ.
abbrev pub Placed :
    Catalog → ℕ → List Pair → List Verdict → List LineItem → List MatchedLine → Type 0
Placed catalog limit asked verdicts [] [] = Unit
Placed catalog limit asked verdicts [] (m ∷ ms) = ⊥
Placed catalog limit asked verdicts (i ∷ is) [] = ⊥
Placed catalog limit asked verdicts (i ∷ is) (m ∷ ms) =
    (IsAbout i m × IsPlaced catalog limit asked verdicts i m)
    × Placed catalog limit asked verdicts is ms

pub scored_all-Answers :
    (catalog : Catalog) (limit : ℕ) (asked : List Pair) (verdicts : List Verdict) (ranks : Bool)
    (is : List LineItem) (ms : List MatchedLine) (ss : List (List Score))
    → Placed catalog limit asked verdicts is ms
    → Scores (map (λ m. (m.verbatim, products_of m)) ms) ss
    → (ns : List MatchedLine) × (scored_all ranks ms ss ≡ some ns)
      × Answers catalog limit asked verdicts is ns
unfolding scored_all scored products_of
scored_all-Answers catalog limit asked verdicts ranks [] [] [] a s = ([], refl, tt)
scored_all-Answers catalog limit asked verdicts ranks [] [] (x ∷ ss) a s = absurd s
scored_all-Answers catalog limit asked verdicts ranks [] (m ∷ ms) ss a s = absurd a
scored_all-Answers catalog limit asked verdicts ranks (i ∷ is) [] ss a s = absurd a
scored_all-Answers catalog limit asked verdicts ranks (i ∷ is) (m ∷ ms) [] a s = absurd s
scored_all-Answers catalog limit asked verdicts ranks (i ∷ is) (m ∷ ms) (x ∷ ss) a s =
    let (n, e, same) = scored_as-some ranks m.how m x s.0 in
    let (ns, f, rest) = scored_all-Answers catalog limit asked verdicts ranks is ms ss a.1 s.1 in
    let (about, so) = Answers-same catalog limit asked verdicts i m n same a.0 in
    (n ∷ ns, rw (scored_all, scored, e, f) refl, (about, inl so, rest))
