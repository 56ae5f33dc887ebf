-- ===== src/Domain/Registries/Labels.antt =====
-- Every label that the code applies is one of its own (src/domain/rules/registries.py).
use rfq_workflow_agent.Base.{
  ◌≡◌, refl, inl, inr, true, Option, none, some, List, [], ◌∷◌, All, arith, ℕ, zero, suc, ◌≤◌, ◌≢◌,
  ◌+◌, length, length-append, All-append, Bool-cases, Option-cases, get_elem?,
}
use rfq_workflow_agent.Base.Text.{Text, member, member-append, text_eq_refl}
use rfq_workflow_agent.Domain.Enums.{RecommendedAction}
use rfq_workflow_agent.Domain.Models.{ClassificationResult}
use rfq_workflow_agent.Domain.Registries.{
  OutlookCategories, for_result, plus_not_sent, for_failure, all_names, given, to_list, labels_of,
  label_slots, mark,
}

member-labels_of :
    (os : List (Option Text)) (i : ℕ) (o : Option Text) (label : Text)
    → get_elem? os i ≡ some o
    → given o ≡ some label
    → member label (labels_of os) ≡ true
unfolding labels_of
member-labels_of [] i o label at set = cc
member-labels_of (p ∷ os) zero o label at set =
    rw member-append (ground (arith, text_eq_refl label))
member-labels_of (p ∷ os) (suc i) o label at set =
    rw member-append (ground (arith, member-labels_of os i o label))

-- Every label of the list is one of the agent's own.
abbrev pub Owned : OutlookCategories → List Text → Type 0
Owned c = All (λ label. member label (all_names c) ≡ true)

mark_idem : (o : Option Text) (labels : List Text) → mark o (mark o labels) ≡ mark o labels
unfolding mark
mark_idem none labels = refl
mark_idem (some label) labels =
    ground (arith, member-append label labels (label ∷ []), text_eq_refl label)

mark-ne_nil : (o : Option Text) (labels : List Text) → labels ≢ [] → mark o labels ≢ []
unfolding mark
mark-ne_nil none labels h = h
mark-ne_nil (some label) [] h = absurd (h refl)
mark-ne_nil (some label) (l ∷ labels) h = ground arith

length-mark : (o : Option Text) (labels : List Text) → length (mark o labels) ≤ length labels + 1
unfolding mark
length-mark none labels = omega arith
length-mark (some label) labels = ground (arith, length-append labels (label ∷ []))

length-for_result :
    {F : Type 0} (c : OutlookCategories) (r : ClassificationResult F) → length (for_result c r) ≤ 1
unfolding for_result
length-for_result c r = ground arith

module _ (c : OutlookCategories) where
  abbrev slot : RecommendedAction → ℕ
  slot RecommendedAction.forward_to_dst = 0
  slot RecommendedAction.route_to_cs = 1
  slot RecommendedAction.route_to_sourcing = 2
  slot RecommendedAction.route_to_order_team = 3
  slot RecommendedAction.human_review = 4
  slot RecommendedAction.ignore = 5

  Owned-slot :
      (i : ℕ) (o : Option Text) → get_elem? (label_slots c) i ≡ some o → Owned c (to_list (given o))
  unfolding all_names
  Owned-slot i o at = elim (Option-cases (given o)) [
    | inl e ↦ rw e tt
    | inr (label, e) ↦ rw e (member-labels_of (label_slots c) i o label at e, tt)
  ]

  Owned-action : (a : RecommendedAction) → Owned c (to_list (given (c.by_action a)))
  Owned-action RecommendedAction.forward_to_dst = Owned-slot 0 _ refl
  Owned-action RecommendedAction.route_to_cs = Owned-slot 1 _ refl
  Owned-action RecommendedAction.route_to_sourcing = Owned-slot 2 _ refl
  Owned-action RecommendedAction.route_to_order_team = Owned-slot 3 _ refl
  Owned-action RecommendedAction.human_review = Owned-slot 4 _ refl
  Owned-action RecommendedAction.ignore = Owned-slot 5 _ refl

  pub for_result-Owned : {F : Type 0} (r : ClassificationResult F) → Owned c (for_result c r)
  unfolding for_result
  for_result-Owned r =
      ground (arith, Owned-action r.recommended_action, Owned-slot 6 c.needs_review refl)

  mark-Owned :
      (o : Option Text) (labels : List Text)
      → Owned c labels
      → Owned c (to_list o)
      → Owned c (mark o labels)
  unfolding mark
  mark-Owned none labels h k = h
  mark-Owned (some label) labels h k = elim (Bool-cases (member label labels)) [
    | inl old ↦ rw old h
    | inr new ↦ rw new (All-append _ labels (label ∷ []) h k)
  ]

  pub plus_not_sent-Owned : (labels : List Text) → Owned c labels → Owned c (plus_not_sent c labels)
  unfolding plus_not_sent
  plus_not_sent-Owned labels h = mark-Owned _ labels h (Owned-slot 7 c.not_sent refl)

  pub plus_not_sent-ne_nil : (labels : List Text) → labels ≢ [] → plus_not_sent c labels ≢ []
  unfolding plus_not_sent
  plus_not_sent-ne_nil labels = mark-ne_nil (given c.not_sent) labels

  pub for_failure-Owned : Owned c (for_failure c)
  unfolding for_failure
  for_failure-Owned = Owned-slot 8 c.error refl

  -- The labels that are applied to a verdict, to an RFQ that no desk received and to a failure are
  -- all among `all_names`, so a message that carries one is recognised as handled.
  pub labels-Owned :
      {F : Type 0} (r : ClassificationResult F)
      → Owned c (for_result c r)
        × Owned c (plus_not_sent c (for_result c r))
        × Owned c (for_failure c)
  labels-Owned r = (
    for_result-Owned r,
    plus_not_sent-Owned (for_result c r) (for_result-Owned r),
    for_failure-Owned,
  )

  -- A verdict earns one label at most, a failed delivery at most one more, and marking it a second
  -- time changes nothing.
  pub labels_bounds :
      {F : Type 0} (r : ClassificationResult F)
      → (length (for_result c r) ≤ 1)
        × (length (plus_not_sent c (for_result c r)) ≤ 2)
        × (plus_not_sent c (plus_not_sent c (for_result c r)) ≡ plus_not_sent c (for_result c r))
  unfolding plus_not_sent
  labels_bounds r = (
    length-for_result c r,
    omega (arith, length-mark (given c.not_sent) (for_result c r), length-for_result c r),
    mark_idem (given c.not_sent) (for_result c r),
  )
