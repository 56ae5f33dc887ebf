-- ===== src/Handlers/Once.antt =====
-- One delivery: how many forwards it tries and lets go.
use rfq_workflow_agent.Base.{
  ℕ, ◌+◌, ◌≤◌, ◌≡◌, refl, Bool, true, false, Option, none, some, [], ◌∷◌, arith, if◌then◌else◌,
  Bool-cases, inl, inr,
}
use rfq_workflow_agent.Base.Text.{Text}
use rfq_workflow_agent.Domain.Enums.{DeliveryOutcome}
use rfq_workflow_agent.Domain.Models.{ClassificationOutcome}
use rfq_workflow_agent.Domain.Regions.{RegionMatch}
use rfq_workflow_agent.Handlers.Effects.{
  FilledWorkbook, Delivery, Effect, Trace, World, Result, ok, raised, pure, on_option, ◌>>=◌,
}
use rfq_workflow_agent.Handlers.Steps.{Handler}
use rfq_workflow_agent.Handlers.Run.{send, send_again, delivered, deliver_to, deliver}
use rfq_workflow_agent.Handlers.Quiet.{visible}

-- The forwards that went, and all that were tried.
abbrev pub sent_count : Trace → ℕ
sent_count [] = 0
sent_count (Effect.forward _ _ _ _ _ true ∷ s) = sent_count s + 1
sent_count (_ ∷ s) = sent_count s

abbrev pub tried_count : Trace → ℕ
tried_count [] = 0
tried_count (Effect.forward _ _ _ _ _ _ ∷ s) = tried_count s + 1
tried_count (_ ∷ s) = tried_count s

pub sent_count-visible : (s : Trace) → sent_count (visible s) ≡ sent_count s
sent_count-visible [] = refl
sent_count-visible (Effect.forward _ _ _ _ _ true ∷ s) = ground (arith, sent_count-visible s)
sent_count-visible (Effect.forward _ _ _ _ _ false ∷ s) = sent_count-visible s
sent_count-visible (_ ∷ s) = sent_count-visible s

pub tried_count-visible : (s : Trace) → tried_count (visible s) ≡ tried_count s
tried_count-visible [] = refl
tried_count-visible (Effect.forward _ _ _ _ _ _ ∷ s) = ground (arith, tried_count-visible s)
tried_count-visible (_ ∷ s) = tried_count-visible s

abbrev pub is_sent : DeliveryOutcome → Bool
is_sent DeliveryOutcome.sent = true
is_sent _ = false

-- Whether a delivery was returned, and 1 if it says that the RFQ was sent.
abbrev pub is_ok : {A : Type 0} → Result A → Bool
is_ok (ok a) = true
is_ok raised = false

abbrev pub reported : Result Delivery → ℕ
reported (ok d) = if is_sent d.outcome then 1 else 0
reported raised = 0

module _ {F : Type 0} (w : World F) (h : Handler) where
  deliver_to-counts :
      (id : Text) (m : RegionMatch) (decision : Option Text) (workbook : Option FilledWorkbook)
      (s : Trace)
      → let after = deliver_to w h id m decision workbook s in
        (is_ok after.0 ≡ true)
        × (sent_count after.1 ≡ sent_count s + reported after.0)
        × (tried_count after.1 ≤ tried_count s + 2)
  unfolding deliver_to send send_again delivered ◌>>=◌
  deliver_to-counts id m decision none s = elim (Bool-cases (w.went s)) [
    | inl yes' ↦ ground arith
    | inr no' ↦ ground arith
  ]
  deliver_to-counts id m decision (some b) s = ground arith

  -- A delivery is always returned. It says that the RFQ was sent exactly when one forward went;
  -- never more than one goes, and two are tried at most.
  pub deliver-counts :
      (id : Text) (match : Option RegionMatch) (decision : Option Text)
      (outcome : ClassificationOutcome F) (workbook : Option FilledWorkbook) (s : Trace)
      → let after = deliver w h id match decision outcome workbook s in
        (is_ok after.0 ≡ true)
        × (sent_count after.1 ≡ sent_count s + reported after.0)
        × (tried_count after.1 ≤ tried_count s + 2)
  unfolding deliver on_option pure
  deliver-counts id none decision outcome workbook s = ground arith
  deliver-counts id (some m) decision outcome workbook s =
      ground (arith, deliver_to-counts id m decision workbook s)
