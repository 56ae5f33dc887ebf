-- ===== src/Domain/Policy/Routing.antt =====
-- Where a verdict is routed (src/domain/policy.py).
use rfq_workflow_agent.Base.{◌≡◌, refl, Bool, false, not, Option, List, [], arith, if◌then◌else◌}
use rfq_workflow_agent.Base.Text.{Text}
use rfq_workflow_agent.Domain.Enums.{EmailCategory, AttachmentKind, is_ignore, is_forward}
use rfq_workflow_agent.Domain.Models.{Signals, ClassificationResult}
use rfq_workflow_agent.Domain.Policy.{
  Float, IsOrdered, Thresholds, Draft, finalize, clamp, category_action, is_rfq_category,
}

-- The two tables agree: a category goes to DST exactly when it is an RFQ category.
pub is_forward-category_action :
    (c : EmailCategory) → is_forward (category_action c) ≡ is_rfq_category c
unfolding category_action is_rfq_category
is_forward-category_action EmailCategory.new_rfq = refl
is_forward-category_action _ = refl

-- The result but for its list of rule hits.
abbrev pub forget_hits : {F : Type 0} → ClassificationResult F → ClassificationResult F
forget_hits r = record r { rule_hits = [] }

module _ {F : Type 0} ⦃f : Float F⦄ where
  -- An email is routed to DST exactly when its category is an RFQ category and the confidence is
  -- not below the review threshold; the result's own `is_rfq` says the former, and an action is
  -- required exactly when the email is not ignored.
  pub finalize-forward :
      (d : Draft F) (s : Signals) (kinds : List AttachmentKind) (t : Thresholds F)
      (warnings : List Text)
      → let r = finalize d s kinds t warnings in
        (is_forward r.recommended_action
          ≡ (if f.lt d.confidence t.review then false else is_rfq_category d.category))
        × (r.is_rfq ≡ is_rfq_category d.category)
        × (r.requires_action ≡ not (is_ignore r.recommended_action))
  unfolding finalize
  finalize-forward d s kinds t warnings = ground (arith, is_forward-category_action d.category)

  -- The model's own answer to "is this an RFQ?" changes nothing but the list of rule hits.
  pub finalize-is_rfq :
      (d : Draft F) (answer : Option Bool) (s : Signals) (kinds : List AttachmentKind)
      (t : Thresholds F) (warnings : List Text)
      → forget_hits (finalize (record d { is_rfq = answer }) s kinds t warnings)
        ≡ forget_hits (finalize d s kinds t warnings)
  unfolding finalize
  finalize-is_rfq d answer s kinds t warnings = refl

  -- The confidence that is reported lies between 0 and 1, whatever the model said.
  pub clamp_bounds :
      IsOrdered F → (c : F) → (f.lt (clamp c) f.nought ≡ false) × (f.lt f.one (clamp c) ≡ false)
  unfolding clamp
  clamp_bounds o c =
      ground
        (arith, o.nought_lt_one, o.lt_irrefl f.nought, o.lt_irrefl f.one, o.lt_asymm f.nought f.one)
