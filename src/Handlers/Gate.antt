-- ===== src/Handlers/Gate.antt =====
-- When `_deliver` sends, to whom, and with what (src/services/handlers.py).
use rfq_workflow_agent.Base.{
  ◌+◌, ◌≤◌, ◌≡◌, inl, inr, Bool, true, false, not, ◌&&◌, Option, none, some, [], ◌∷◌, arith,
  Bool-cases,
}
use rfq_workflow_agent.Base.Text.{Text, non_empty}
use rfq_workflow_agent.Domain.Enums.{DeliveryOutcome}
use rfq_workflow_agent.Domain.Models.{ClassificationOutcome}
use rfq_workflow_agent.Domain.Regions.{Region, RegionMatch}
use rfq_workflow_agent.Handlers.Effects.{
  FilledWorkbook, Delivery, Effect, Trace, World, Result, ok, raised, pure, on_option, ◌>>=◌,
}
use rfq_workflow_agent.Handlers.Steps.{Handler}
use rfq_workflow_agent.Handlers.Run.{send, send_again, delivered, deliver_to, deliver}
use rfq_workflow_agent.Handlers.Once.{tried_count}

-- Whether there is a desk with an address.
abbrev pub has_address : Option RegionMatch → Bool
has_address none = false
has_address (some m) = non_empty m.region.forward_to

-- What `_deliver` reports where it sends nothing.
abbrev pub held_outcome : Bool → Bool → Option RegionMatch → DeliveryOutcome
held_outcome false review match = DeliveryOutcome.disabled
held_outcome true true match = DeliveryOutcome.unsure
held_outcome true false none = DeliveryOutcome.no_region
held_outcome true false (some m) = DeliveryOutcome.no_address

abbrev pub OutcomeIs : Result Delivery → DeliveryOutcome → Type 0
OutcomeIs (ok d) o = d.outcome ≡ o
OutcomeIs raised o = ⊥

-- Every forward of the trace goes to this desk, with its copies.
abbrev pub ForwardsTo : Region → Trace → Type 0
ForwardsTo r [] = Unit
ForwardsTo r (Effect.forward id to cc comment attachment went ∷ s) =
    (to ≡ r.forward_to) × (cc ≡ r.cc) × ForwardsTo r s
ForwardsTo r (_ ∷ s) = ForwardsTo r s

module _ {F : Type 0} (w : World F) (h : Handler) where
  deliver_to-tries :
      (id : Text) (m : RegionMatch) (decision : Option Text) (workbook : Option FilledWorkbook)
      (s : Trace)
      → tried_count s + 1 ≤ tried_count (deliver_to w h id m decision workbook s).1
  unfolding deliver_to send send_again delivered ◌>>=◌
  deliver_to-tries id m decision none s = elim (Bool-cases (w.went s)) [
    | inl went ↦ ground arith
    | inr lost ↦ ground arith
  ]
  deliver_to-tries id m decision (some b) s = ground arith

  -- A forward is tried exactly when forwarding is on, the verdict needs no review, and one desk was
  -- found and has an address; otherwise no call is made at all.
  pub deliver-tries_iff :
      (id : Text) (match : Option RegionMatch) (decision : Option Text)
      (outcome : ClassificationOutcome F) (workbook : Option FilledWorkbook) (s : Trace)
      → let after = deliver w h id match decision outcome workbook s in
        let clear =
          h.forward_enabled && (not outcome.result.needs_human_review && has_address match) in
        (clear ≡ true → tried_count s + 1 ≤ tried_count after.1)
        × (clear ≡ false
            → (after.1 ≡ s)
              × OutcomeIs after.0
                  (held_outcome h.forward_enabled outcome.result.needs_human_review match))
  unfolding deliver on_option pure
  deliver-tries_iff id none decision outcome workbook s = ground arith
  deliver-tries_iff id (some m) decision outcome workbook s =
      ground (arith, deliver_to-tries id m decision workbook s)

  deliver_to-ForwardsTo :
      (id : Text) (m : RegionMatch) (decision : Option Text) (workbook : Option FilledWorkbook)
      (s : Trace)
      → ForwardsTo m.region s
      → ForwardsTo m.region (deliver_to w h id m decision workbook s).1
  unfolding deliver_to send send_again delivered ◌>>=◌
  deliver_to-ForwardsTo id m decision workbook s to = ground arith

  -- The mail goes to nobody but the desk of the region and its copies.
  pub deliver-ForwardsTo :
      (id : Text) (m : RegionMatch) (decision : Option Text) (outcome : ClassificationOutcome F)
      (workbook : Option FilledWorkbook)
      → ForwardsTo m.region (deliver w h id (some m) decision outcome workbook []).1
  unfolding deliver on_option pure
  deliver-ForwardsTo id m decision outcome workbook =
      ground (arith, deliver_to-ForwardsTo id m decision workbook [])
