-- ===== src/Handlers/Order.antt =====
-- The order of the calls that can be seen: forwards, then the label, then the journal's line about
-- the delivery (src/services/handlers.py).
use rfq_workflow_agent.Base.{
  ℕ, ◌≤◌, ◌≡◌, Bool, true, false, not, Option, none, some, List, [], ◌∷◌, arith, All, if◌then◌else◌,
}
use rfq_workflow_agent.Base.Text.{Text, non_empty}
use rfq_workflow_agent.Domain.Enums.{DeliveryOutcome}
use rfq_workflow_agent.Domain.Models.{NormalizedEmail, ClassificationOutcome}
use rfq_workflow_agent.Domain.Regions.{RegionMatch}
use rfq_workflow_agent.Handlers.Effects.{
  EmailMessage, SourceFile, ReadDocument, FilledWorkbook, Delivery, Effect, Trace, World, Result,
  ok, raised, M, pure, raise, ask, on_option, then_do, ◌>>=◌,
}
use rfq_workflow_agent.Handlers.Steps.{Handler, Triaged, append, label, no_delivery, undelivered}
use rfq_workflow_agent.Handlers.Run.{
  Handled, send, send_again, deliver_to, deliver, handle_rfq, handle_other, journal, settle,
  handle_failure, handle_verdict, handle_new, handle,
}
use rfq_workflow_agent.Handlers.Quiet.{
  Quiet, Quiet-pure, Quiet-if, Quiet-attempt, visible, read_before-Quiet, triage-Quiet,
  update_record-Quiet, extract-Quiet, match_items-Quiet, record_failure-Quiet, download-Quiet,
}

-- A forward comes first, the label next, the journal's line last.
abbrev pub stage : Effect → ℕ
stage (Effect.set_categories _ _ _) = 1
stage (Effect.journal_delivery _ _ _ _) = 2
stage _ = 0

-- Newest first, no call stands before one of an earlier stage.
abbrev pub IsStaged : Trace → Type 0
IsStaged [] = Unit
IsStaged (e ∷ s) = All (λ earlier. stage earlier ≤ stage e) s × IsStaged s

-- The visible calls so far are in order, and none is beyond stage `k`.
abbrev Upto : ℕ → Trace → Type 0
Upto k s = IsStaged (visible s) × All (λ e. stage e ≤ k) (visible s)

All-weaken : (j k : ℕ) (s : Trace) → j ≤ k → All (λ e. stage e ≤ j) s → All (λ e. stage e ≤ k) s
All-weaken j k [] le h = tt
All-weaken j k (e ∷ s) le h = (omega arith, All-weaken j k s le h.1)

-- The method takes the calls from stage `j` at most to stage `k` at most, and keeps their order.
record Climbs {A : Type 0} (j k : ℕ) (m : M A) : Type 0 where
  at : (s : Trace) → Upto j s → Upto k (m s).1

Climbs-Quiet : {A : Type 0} (j : ℕ) (m : M A) → Quiet m → Climbs j j m
Climbs-Quiet j m q = record { at = λ s u. rw q.at u }

Climbs-pure : {A : Type 0} (j k : ℕ) (a : A) → j ≤ k → Climbs j k (pure a)
unfolding pure
Climbs-pure j k a le = record { at = λ s u. (u.0, All-weaken j k (visible s) le u.1) }

Climbs-raise : {A : Type 0} (j : ℕ) → Climbs j j (raise {A = A})
unfolding raise
Climbs-raise j = record { at = λ s u. u }

module _ {A : Type 0} {j k : ℕ} where
  Climbs-if : (c : Bool) (m n : M A) → Climbs j k m → Climbs j k n → Climbs j k (if c then m else n)
  Climbs-if true m n hm hn = hm
  Climbs-if false m n hm hn = hn

  Climbs-option :
      {X : Type 0} (o : Option X) (n : M A) (f : X → M A)
      → Climbs j k n
      → ((x : X) → Climbs j k (f x))
      → Climbs j k (on_option o n f)
  unfolding on_option
  Climbs-option none n f hn hf = hn
  Climbs-option (some x) n f hn hf = hf x

module _ {A B : Type 0} {k l : ℕ} where
  then_do-Climbs :
      (f : A → M B) (r : Result A) (s : Trace)
      → k ≤ l
      → ((a : A) → Climbs k l (f a))
      → Upto k s
      → Upto l (then_do f r s).1
  then_do-Climbs f (ok a) s le h u = (h a).at s u
  then_do-Climbs f raised s le h u = (u.0, All-weaken k l (visible s) le u.1)

module _ {A B : Type 0} {j k l : ℕ} where
  Climbs-bind :
      (m : M A) (f : A → M B)
      → Climbs j k m
      → k ≤ l
      → ((a : A) → Climbs k l (f a))
      → Climbs j l (m >>= f)
  unfolding ◌>>=◌
  Climbs-bind m f hm le hf = record {
    at = λ s u. then_do-Climbs f (m s).0 (m s).1 le hf (hm.at s u);
  }

-- A call is in the trace whatever its answer is.
trace-ask :
    {A : Type 0} (e : Effect) (answer : Trace → Option A) (s : Trace) → (ask e answer s).1 ≡ e ∷ s
unfolding ask
trace-ask e answer s = ground arith

module _ {F : Type 0} (w : World F) (h : Handler) where
  send-Climbs :
      (id : Text) (m : RegionMatch) (decision : Option Text) (workbook lost : Option FilledWorkbook)
      → Climbs 0 0 (send w h id m decision workbook lost)
  unfolding send
  send-Climbs id m decision workbook lost = record { at = λ s u. ((u.1, u.0), (omega arith, u.1)) }

  send_again-Climbs :
      (id : Text) (m : RegionMatch) (decision : Option Text)
      (workbook carrying : Option FilledWorkbook) (sent : Option Text)
      → Climbs 0 0 (send_again w h id m decision workbook carrying sent)
  unfolding send_again
  send_again-Climbs id m decision workbook none sent = Climbs-pure 0 0 sent (omega arith)
  send_again-Climbs id m decision workbook (some b) (some name) =
      Climbs-pure 0 0 (some name) (omega arith)
  send_again-Climbs id m decision workbook (some b) none = send-Climbs id m decision none workbook

  deliver_to-Climbs :
      (id : Text) (m : RegionMatch) (decision : Option Text) (workbook : Option FilledWorkbook)
      → Climbs 0 0 (deliver_to w h id m decision workbook)
  unfolding deliver_to
  deliver_to-Climbs id m decision workbook =
      Climbs-bind _ _ (send-Climbs id m decision _ none) (omega arith) λ sent.
        Climbs-bind _ _ (send_again-Climbs id m decision workbook _ sent) (omega arith)
          λ final. Climbs-pure 0 0 _ (omega arith)

  deliver-Climbs :
      (id : Text) (match : Option RegionMatch) (decision : Option Text)
      (outcome : ClassificationOutcome F) (workbook : Option FilledWorkbook)
      → Climbs 0 0 (deliver w h id match decision outcome workbook)
  unfolding deliver
  deliver-Climbs id match decision outcome workbook =
      Climbs-if (not h.forward_enabled) _ _
        (Climbs-pure 0 0 (no_delivery DeliveryOutcome.disabled) (omega arith))
        (Climbs-if outcome.result.needs_human_review _ _
          (Climbs-pure 0 0 (no_delivery DeliveryOutcome.unsure) (omega arith))
          (Climbs-option match _ _
            (Climbs-pure 0 0 (no_delivery DeliveryOutcome.no_region) (omega arith))
            λ m.
              Climbs-if (not (non_empty m.region.forward_to)) _ _
                (Climbs-pure 0 0 (undelivered DeliveryOutcome.no_address m) (omega arith))
                (deliver_to-Climbs id m decision workbook)))

  label-Climbs : (id : Text) (names : List Text) → Climbs 0 1 (label w h id names)
  unfolding label
  label-Climbs id [] = record { at = λ s u. (u.0, All-weaken 0 1 (visible s) (omega arith) u.1) }
  label-Climbs id (n ∷ ns) = record {
    at = λ s u.
        let weak = All-weaken 0 1 (visible s) (omega arith) u.1 in
        ((weak, u.0), (omega arith, weak));
  }

  journal-Climbs :
      (decision : Option Text) (d : Option Delivery) (labels : List Text) (labelled : Bool)
      → Climbs 1 2 (journal w h decision d labels labelled)
  unfolding journal append
  journal-Climbs decision none labels labelled = Climbs-pure 1 2 tt (omega arith)
  journal-Climbs decision (some d) labels labelled = record {
    at = λ s u.
        let weak = All-weaken 1 2 (visible s) (omega arith) u.1 in
        rw trace-ask ((weak, u.0), (omega arith, weak));
  }

  settle-Climbs :
      (message : EmailMessage) (triaged : Triaged F) (done : Handled)
      → Climbs 0 2 (settle w h message triaged done)
  unfolding settle
  settle-Climbs message triaged done =
      Climbs-bind _ _ (label-Climbs message.id done.labels) (omega arith) λ labelled.
        Climbs-bind _ _ (journal-Climbs _ _ _ labelled) (omega arith) λ _.
          Climbs-bind _ _ (Climbs-Quiet 2 _ (update_record-Quiet w h _ _)) (omega arith)
            λ _. Climbs-Quiet 2 _ (match_items-Quiet w h _ _)

  handle_rfq-Climbs :
      (message : EmailMessage) (email : NormalizedEmail) (triaged : Triaged F)
      (arrived : List SourceFile) (files : Option (List ReadDocument))
      → Climbs 0 0 (handle_rfq w h message email triaged arrived files)
  unfolding handle_rfq
  handle_rfq-Climbs message email triaged arrived files =
      Climbs-bind _ _
        (Climbs-Quiet 0 _ (Quiet-if _ _ _ (download-Quiet w h message) (Quiet-pure arrived)))
        (omega arith)
        λ fetched.
          Climbs-bind _ _ (Climbs-Quiet 0 _ (extract-Quiet w h email _ triaged fetched files))
            (omega arith)
            λ reading.
              Climbs-bind _ _ (deliver-Climbs _ _ _ _ _) (omega arith)
                (λ d. Climbs-pure 0 0 _ (omega arith))

  handle_verdict-Climbs :
      (message : EmailMessage) (email : NormalizedEmail) (arrived : List SourceFile)
      (files : Option (List ReadDocument)) (triaged : Triaged F)
      → Climbs 0 2 (handle_verdict w h message email arrived files triaged)
  unfolding handle_verdict handle_other
  handle_verdict-Climbs message email arrived files triaged =
      Climbs-bind _ _
        (Climbs-if _ _ _ (handle_rfq-Climbs message email triaged arrived files)
          (Climbs-pure 0 0 _ (omega arith)))
        (omega arith) (λ done. settle-Climbs message triaged done)

  handle_failure-Climbs :
      (message : EmailMessage) (arrived : List SourceFile)
      → Climbs 0 2 (handle_failure w h message arrived)
  unfolding handle_failure raise
  handle_failure-Climbs message arrived =
      Climbs-bind _ _ (label-Climbs message.id _) (omega arith) λ took.
        Climbs-bind _ _ (Climbs-Quiet 1 _ (record_failure-Quiet w h arrived)) (omega arith)
          λ _. record { at = λ s u. (u.0, All-weaken 1 2 (visible s) (omega arith) u.1) }

  handle-Climbs : (message : EmailMessage) → Climbs 0 2 (handle w h message)
  unfolding handle handle_new
  handle-Climbs message = Climbs-if _ _ _ (Climbs-pure 0 2 tt (omega arith)) (
      Climbs-bind _ _ (Climbs-Quiet 0 _ (read_before-Quiet w h message _)) (omega arith)
        λ (arrived, files).
          Climbs-bind _ _ (Climbs-Quiet 0 _ (Quiet-attempt _ (triage-Quiet w h _ files)))
            (omega arith)
            λ tried.
              Climbs-option tried _ _ (handle_failure-Climbs message arrived)
                (handle_verdict-Climbs message _ arrived files))

  -- In one run over an email every forward that is tried comes before the label, and the label
  -- before the journal's line about the delivery, also where the run ends in an exception.
  pub handle-IsStaged : (message : EmailMessage) → IsStaged (visible (handle w h message []).1)
  handle-IsStaged message = ((handle-Climbs message).at [] (tt, tt)).0
