-- ===== src/Handlers/Bounded.antt =====
-- An RFQ leaves the mailbox once at most (src/services/handlers.py).
use rfq_workflow_agent.Base.{
  ℕ, ◌+◌, ◌≤◌, Bool, true, false, Option, none, some, List, [], ◌∷◌, arith, if◌then◌else◌, ap,
}
use rfq_workflow_agent.Base.Text.{Text}
use rfq_workflow_agent.Domain.Models.{NormalizedEmail, ClassificationOutcome}
use rfq_workflow_agent.Domain.Regions.{RegionMatch}
use rfq_workflow_agent.Handlers.Effects.{
  EmailMessage, SourceFile, ReadDocument, FilledWorkbook, Delivery, Trace, World, Result, ok,
  raised, M, pure, raise, ask, on_option, then_do, ◌>>=◌,
}
use rfq_workflow_agent.Handlers.Steps.{Handler, Triaged, append, label, already_handled}
use rfq_workflow_agent.Handlers.Run.{
  Handled, deliver, handle_rfq, handle_other, journal, settle, handle_failure, handle_verdict,
  handle_new, handle,
}
use rfq_workflow_agent.Handlers.Quiet.{
  Quiet, Quiet-pure, Quiet-if, Quiet-attempt, read_before-Quiet, triage-Quiet, update_record-Quiet,
  extract-Quiet, match_items-Quiet, record_failure-Quiet, download-Quiet,
}
use rfq_workflow_agent.Handlers.Once.{
  sent_count, tried_count, sent_count-visible, tried_count-visible, reported, deliver-counts,
}

-- The method lets at most `a` forwards go and tries at most `b`, whether it returns or raises.
pub record Bounded {A : Type 0} (a b : ℕ) (m : M A) : Type 0 where
  pub at :
      (s : Trace)
      → (sent_count (m s).1 ≤ sent_count s + a) × (tried_count (m s).1 ≤ tried_count s + b)

Quiet-Bounded : {A : Type 0} (m : M A) → Quiet m → Bounded 0 0 m
Quiet-Bounded m q = record {
  at = λ s. omega (
    arith,
    sent_count-visible (m s).1,
    sent_count-visible s,
    ap sent_count (q.at s),
    tried_count-visible (m s).1,
    tried_count-visible s,
    ap tried_count (q.at s),
  );
}

module _ {A B : Type 0} {a b : ℕ} where
  then_do-Bounded :
      (f : A → M B) (r : Result A) (s : Trace)
      → ((x : A) → Bounded a b (f x))
      → (sent_count (then_do f r s).1 ≤ sent_count s + a)
        × (tried_count (then_do f r s).1 ≤ tried_count s + b)
  then_do-Bounded f (ok x) s h = (h x).at s
  then_do-Bounded f raised s h = omega arith

module _ {A B : Type 0} {a b : ℕ} where
  zero_bind :
      (m : M A) (f : A → M B)
      → Bounded 0 0 m
      → ((x : A) → Bounded a b (f x))
      → Bounded a b (m >>= f)
  unfolding ◌>>=◌
  zero_bind m f hm hf = record {
    at = λ s. omega (arith, hm.at s, then_do-Bounded f (m s).0 (m s).1 hf);
  }

  zero_last :
      (m : M A) (f : A → M B)
      → Bounded a b m
      → ((x : A) → Bounded 0 0 (f x))
      → Bounded a b (m >>= f)
  unfolding ◌>>=◌
  zero_last m f hm hf = record {
    at = λ s. omega (arith, hm.at s, then_do-Bounded f (m s).0 (m s).1 hf);
  }

  Quiet-first :
      (m : M A) (f : A → M B) → Quiet m → ((x : A) → Bounded a b (f x)) → Bounded a b (m >>= f)
  Quiet-first m f q h = zero_bind m f (Quiet-Bounded m q) h

  Quiet-last :
      (m : M A) (f : A → M B) → Bounded a b m → ((x : A) → Quiet (f x)) → Bounded a b (m >>= f)
  Quiet-last m f h q = zero_last m f h (λ x. Quiet-Bounded (f x) (q x))

module _ {A : Type 0} {a b : ℕ} where
  Bounded-if :
      (c : Bool) (m n : M A) → Bounded a b m → Bounded a b n → Bounded a b (if c then m else n)
  Bounded-if true m n hm hn = hm
  Bounded-if false m n hm hn = hn

  Bounded-option :
      {X : Type 0} (o : Option X) (n : M A) (f : X → M A)
      → Bounded 0 0 n
      → ((x : X) → Bounded a b (f x))
      → Bounded a b (on_option o n f)
  unfolding on_option
  Bounded-option none n f hn hf = record { at = λ s. omega (arith, hn.at s) }
  Bounded-option (some x) n f hn hf = hf x

  Bounded-Quiet : (m : M A) → Quiet m → Bounded a b m
  Bounded-Quiet m q = record { at = λ s. omega (arith, (Quiet-Bounded m q).at s) }

module _ {F : Type 0} (w : World F) (h : Handler) where
  reported-le_one : (r : Result Delivery) → reported r ≤ 1
  reported-le_one r = ground arith

  raise-Bounded : {A : Type 0} → Bounded 0 0 (raise {A = A})
  unfolding raise
  raise-Bounded = record { at = λ s. omega arith }

  handle_other-Quiet :
      (triaged : Triaged F) (arrived : List SourceFile) → Quiet (handle_other w h triaged arrived)
  unfolding handle_other
  handle_other-Quiet triaged arrived = Quiet-pure _

  label-Bounded : (id : Text) (names : List Text) → Bounded 0 0 (label w h id names)
  unfolding label
  label-Bounded id [] = record { at = λ s. omega arith }
  label-Bounded id (n ∷ ns) = record { at = λ s. omega arith }

  journal-Bounded :
      (decision : Option Text) (d : Option Delivery) (labels : List Text) (labelled : Bool)
      → Bounded 0 0 (journal w h decision d labels labelled)
  unfolding journal append ask pure
  journal-Bounded decision none labels labelled = record { at = λ s. omega arith }
  journal-Bounded decision (some d) labels labelled = record { at = λ s. ground arith }

  settle-Bounded :
      (message : EmailMessage) (triaged : Triaged F) (done : Handled)
      → Bounded 0 0 (settle w h message triaged done)
  unfolding settle
  settle-Bounded message triaged done =
      zero_bind _ _ (label-Bounded message.id done.labels) λ labelled.
        zero_bind _ _ (journal-Bounded _ _ _ labelled) λ _.
          Quiet-first _ _ (update_record-Quiet w h _ _)
            λ _. Bounded-Quiet _ (match_items-Quiet w h _ _)

  deliver-Bounded :
      (id : Text) (match : Option RegionMatch) (decision : Option Text)
      (outcome : ClassificationOutcome F) (workbook : Option FilledWorkbook)
      → Bounded 1 2 (deliver w h id match decision outcome workbook)
  deliver-Bounded id match decision outcome workbook = record {
    at = λ s. omega (
      arith,
      deliver-counts w h id match decision outcome workbook s,
      reported-le_one (deliver w h id match decision outcome workbook s).0,
    );
  }

  handle_rfq-Bounded :
      (message : EmailMessage) (email : NormalizedEmail) (triaged : Triaged F)
      (arrived : List SourceFile) (files : Option (List ReadDocument))
      → Bounded 1 2 (handle_rfq w h message email triaged arrived files)
  unfolding handle_rfq
  handle_rfq-Bounded message email triaged arrived files =
      Quiet-first _ _ (Quiet-if _ _ _ (download-Quiet w h message) (Quiet-pure arrived)) λ fetched.
        Quiet-first _ _ (extract-Quiet w h email _ triaged fetched files)
          λ reading. Quiet-last _ _ (deliver-Bounded _ _ _ _ _) (λ d. Quiet-pure _)

  handle_verdict-Bounded :
      (message : EmailMessage) (email : NormalizedEmail) (arrived : List SourceFile)
      (files : Option (List ReadDocument)) (triaged : Triaged F)
      → Bounded 1 2 (handle_verdict w h message email arrived files triaged)
  unfolding handle_verdict
  handle_verdict-Bounded message email arrived files triaged =
      zero_last _ _
        (Bounded-if _ _ _ (handle_rfq-Bounded message email triaged arrived files)
          (Bounded-Quiet _ (handle_other-Quiet triaged arrived)))
        (λ done. settle-Bounded message triaged done)

  handle_failure-Bounded :
      (message : EmailMessage) (arrived : List SourceFile)
      → Bounded 0 0 (handle_failure w h message arrived)
  unfolding handle_failure
  handle_failure-Bounded message arrived =
      zero_bind _ _ (label-Bounded message.id _)
        λ took. Quiet-first _ _ (record_failure-Quiet w h arrived) (λ _. raise-Bounded)

  handle_new-Bounded : (message : EmailMessage) → Bounded 1 2 (handle_new w h message)
  unfolding handle_new
  handle_new-Bounded message = Quiet-first _ _ (read_before-Quiet w h message _) λ (arrived, files).
      Quiet-first _ _ (Quiet-attempt _ (triage-Quiet w h _ files)) λ tried.
        Bounded-option tried _ _ (handle_failure-Bounded message arrived)
          (handle_verdict-Bounded message _ arrived files)

  -- One run over an email lets one forward go at most, and tries two at most, whatever the mailbox,
  -- the models and the disk answer, and also where it ends in an exception.
  pub handle-once :
      (message : EmailMessage) (s : Trace)
      → (sent_count (handle w h message s).1 ≤ sent_count s + 1)
        × (tried_count (handle w h message s).1 ≤ tried_count s + 2)
  unfolding handle
  handle-once message s =
      (Bounded-if {a = 1} {b = 2} (already_handled w h message) (pure tt) (handle_new w h message)
          (Bounded-Quiet _ (Quiet-pure tt)) (handle_new-Bounded message)).at
        s
