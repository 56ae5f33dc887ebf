-- ===== src/Notifications/Service.antt =====
-- What the service does with the ids it accepted: the handler's bound on forwards, over a batch.
use rfq_workflow_agent.Base.{
  ◌+◌, ◌*◌, ◌≤◌, ◌≡◌, ◌⊎◌, refl, true, Option, none, some, List, [], ◌∷◌, arith, length,
  Option-cases, inl, inr,
}
use rfq_workflow_agent.Base.Text.{Text}
use rfq_workflow_agent.Handlers.Effects.{EmailMessage, World, Trace, on_option, ◌>>=◌}
use rfq_workflow_agent.Handlers.Steps.{Handler}
use rfq_workflow_agent.Handlers.Once.{sent_count, tried_count, is_ok}
use rfq_workflow_agent.Handlers.Run.{handle}
use rfq_workflow_agent.Handlers.Bounded.{handle-once}
use rfq_workflow_agent.Notifications.{get_message, process_one, process}

module _ {F : Type 0} (w : World F) (h : Handler) (inbox : Trace → Text → Option EmailMessage) where
  -- What one id adds to the trace: nothing where the message cannot be read, and else all that its
  -- handling adds, raised or not.
  abbrev pub IsHandled : Text → Trace → Trace → Type 0
  IsHandled id s t =
      ((inbox s id ≡ none) × (t ≡ s))
      ⊎ ((message : EmailMessage) × (inbox s id ≡ some message) × (t ≡ (handle w h message s).1))

  -- Every id of the batch in turn, each from the trace that the one before it left.
  abbrev pub AreHandled : List Text → Trace → Trace → Type 0
  AreHandled [] s t = t ≡ s
  AreHandled (id ∷ ids) s t = (u : Trace) × IsHandled id s u × AreHandled ids u t

  process_one-IsHandled : (id : Text) (s : Trace) → IsHandled id s (process_one w h inbox id s).1
  unfolding process_one get_message ◌>>=◌ on_option
  process_one-IsHandled id s = elim (Option-cases (inbox s id)) [
    | inl e ↦ inl (e, rw e refl)
    | inr (message, e) ↦ inr (message, e, rw e refl)
  ]

  IsHandled-once :
      (id : Text) (s t : Trace)
      → IsHandled id s t
      → (sent_count t ≤ sent_count s + 1) × (tried_count t ≤ tried_count s + 2)
  IsHandled-once id s t (inl (_, e)) = rw e ((omega arith, omega arith))
  IsHandled-once id s t (inr (message, _, e)) = rw e (handle-once w h message s)

  AreHandled-once :
      (ids : List Text) (s t : Trace)
      → AreHandled ids s t
      → (sent_count t ≤ sent_count s + length ids)
        × (tried_count t ≤ tried_count s + 2 * length ids)
  AreHandled-once [] s t e = rw e ((omega arith, omega arith))
  AreHandled-once (id ∷ ids) s t (u, one, rest) =
      let (a, b) = IsHandled-once id s u one in
      let (c, d) = AreHandled-once ids u t rest in (omega (arith, a, c), omega (arith, b, d))

  process-AreHandled :
      (ids : List Text) (s : Trace)
      → (is_ok (process w h inbox ids s).0 ≡ true) × AreHandled ids s (process w h inbox ids s).1
  unfolding process ◌>>=◌
  process-AreHandled [] s = (refl, refl)
  process-AreHandled (id ∷ ids) s =
      let t = (process_one w h inbox id s).1 in
      let (o, rest) = process-AreHandled ids t in (o, (t, process_one-IsHandled id s, rest))

  -- A batch raises nothing, and each of its ids is handled in turn, whatever was raised before it:
  -- where the mailbox gives no message the trace stays as it is, and else it grows by all that the
  -- handler does with the message. At most one forward goes for each id, and at most two are tried.
  pub process-once :
      (ids : List Text) (s : Trace)
      → (is_ok (process w h inbox ids s).0 ≡ true)
        × AreHandled ids s (process w h inbox ids s).1
        × (sent_count (process w h inbox ids s).1 ≤ sent_count s + length ids)
        × (tried_count (process w h inbox ids s).1 ≤ tried_count s + 2 * length ids)
  process-once ids s =
      let (o, handled) = process-AreHandled ids s in
      let (sent, tried) = AreHandled-once ids s (process w h inbox ids s).1 handled in
      (o, handled, sent, tried)
