-- ===== src/Handlers/Failure.antt =====
-- What happens to an email that fails, and to one that the journal cannot take
-- (src/services/handlers.py).
use rfq_workflow_agent.Base.{
  ◌≡◌, refl, ◌∙◌, ap, Bool, true, false, if◌then◌else◌, Option, none, some, List, [], ◌∷◌, ◌++◌,
  arith, Bool-cases, inl, inr,
}
use rfq_workflow_agent.Base.Text.{Text}
use rfq_workflow_agent.Domain.Enums.{is_forward}
use rfq_workflow_agent.Domain.Models.{NormalizedEmail}
use rfq_workflow_agent.Domain.Regions.{RegionMatch}
use rfq_workflow_agent.Domain.Registries.{for_failure}
use rfq_workflow_agent.Handlers.Effects.{
  EmailMessage, SourceFile, ReadDocument, RfqExtraction, FilledWorkbook, Effect, Trace, World,
  Result, ok, raised, M, pure, raise, ask, attempt, on_option, then_do, ◌>>=◌,
}
use rfq_workflow_agent.Handlers.Steps.{
  Handler, Triaged, Reading, nothing_read, already_handled, label, triage, read_before, try_extract,
  reads_them_later, download, append, keep_extraction, extract, fill, record_failure,
}
use rfq_workflow_agent.Handlers.Run.{handle, handle_new, handle_verdict, handle_failure, handle_rfq}
use rfq_workflow_agent.Handlers.Quiet.{
  Quiet, Quiet-if, Quiet-pure, visible, download-Quiet, read_before-Quiet, triage-Quiet,
  record_failure-Quiet, extract-Quiet,
}

module _ {A B : Type 0} (m : M A) (f : A → M B) (s : Trace) where
  bind-ok : (a : A) → (m s).0 ≡ ok a → (m >>= f) s ≡ f a (m s).1
  unfolding ◌>>=◌
  bind-ok a e = rw e

  bind-raised : (m s).0 ≡ raised → (m >>= f) s ≡ (raised, (m s).1)
  unfolding ◌>>=◌
  bind-raised e = rw e

then_do-raise :
    {A B : Type 0} (r : Result A) (s : Trace) → then_do {B = B} (λ _. raise) r s ≡ (raised, s)
unfolding raise
then_do-raise (ok a) s = refl
then_do-raise raised s = refl

bind-raise : {A B : Type 0} (m : M A) (s : Trace) → (m >>= λ _. raise {A = B}) s ≡ (raised, (m s).1)
unfolding ◌>>=◌
bind-raise m s = then_do-raise (m s).0 (m s).1

attempt-raised :
    {A : Type 0} (m : M A) (s : Trace) → (m s).0 ≡ raised → attempt m s ≡ (ok none, (m s).1)
unfolding attempt
attempt-raised m s e = rw e

attempt-ok :
    {A : Type 0} (m : M A) (s : Trace) (a : A)
    → (m s).0 ≡ ok a
    → attempt m s ≡ (ok (some a), (m s).1)
unfolding attempt
attempt-ok m s a e = rw e

-- The call that labels a message, where there is a label to apply.
abbrev pub label_calls : Text → List Text → Bool → Trace
label_calls id [] took = []
label_calls id (n ∷ ns) took = Effect.set_categories id (n ∷ ns) took ∷ []

module _ {F : Type 0} (w : World F) (h : Handler) where
  label-visible :
      (id : Text) (names : List Text) (s : Trace)
      → (took : Bool) × ((label w h id names s).0 ≡ ok took)
        × (visible (label w h id names s).1 ≡ label_calls id names took ++ visible s)
  unfolding label
  label-visible id [] s = (true, refl, refl)
  label-visible id (n ∷ ns) s = (w.took s, refl, refl)

  handle_failure-visible :
      (message : EmailMessage) (arrived : List SourceFile) (s : Trace)
      → (took : Bool) × ((handle_failure w h message arrived s).0 ≡ raised)
        × (visible (handle_failure w h message arrived s).1
            ≡ label_calls message.id (for_failure h.categories) took ++ visible s)
  unfolding handle_failure
  handle_failure-visible message arrived s =
      let m = label w h message.id (for_failure h.categories) in
      let (took, e, v) = label-visible message.id (for_failure h.categories) s in
      let same =
        bind-ok m (λ _. record_failure w h arrived >>= λ _. raise {A = Unit}) s took e
        ∙ bind-raise (record_failure w h arrived) (m s).1 in
      (
        took,
        ap (λ p. p.0) same,
        ap (λ p. visible p.1) same ∙ (record_failure-Quiet w h arrived).at (m s).1 ∙ v,
      )

  -- The run of an email whose triage raises is that of the failure branch.
  failed_run :
      (message : EmailMessage) (arrived : List SourceFile) (files : Option (List ReadDocument))
      (s : Trace)
      → already_handled w h message ≡ false
      → (read_before w h message (w.to_email message) s).0 ≡ ok (arrived, files)
      → (triage w h (w.to_email message) files (read_before w h message (w.to_email message) s).1).0
        ≡ raised
      → handle w h message s
        ≡ handle_failure w h message arrived
            (triage w h
              (w.to_email message)
              files
              (read_before w h message (w.to_email message) s).1).1
  unfolding handle handle_new on_option
  failed_run message arrived files s fresh reading failed =
      let m = read_before w h message (w.to_email message) in
      let t = triage w h (w.to_email message) files in
      let tried = attempt-raised t (m s).1 failed in
      rw fresh (
        bind-ok m _ s (arrived, files) reading
        ∙ bind-ok (attempt t) _ (m s).1 none (ap (λ p. p.0) tried)
        ∙ ap (λ p. handle_failure w h message arrived p.1) tried)

  -- Where the triage of an email raises, the exception goes on. Nothing is forwarded and no delivery is
  -- journalled; the one call of these kinds that the trace gains sets the labels of a failure, if any
  -- is configured, and may take or not.
  pub handle-failed :
      (message : EmailMessage) (arrived : List SourceFile) (files : Option (List ReadDocument))
      (s : Trace)
      → already_handled w h message ≡ false
      → (read_before w h message (w.to_email message) s).0 ≡ ok (arrived, files)
      → (triage w h (w.to_email message) files (read_before w h message (w.to_email message) s).1).0
        ≡ raised
      → (took : Bool) × ((handle w h message s).0 ≡ raised)
        × (visible (handle w h message s).1
            ≡ label_calls message.id (for_failure h.categories) took ++ visible s)
  handle-failed message arrived files s fresh reading failed =
      let m = read_before w h message (w.to_email message) in
      let t = triage w h (w.to_email message) files in
      let (took, r, v) = handle_failure-visible message arrived (t (m s).1).1 in
      let run = failed_run message arrived files s fresh reading failed in
      (
        took,
        ap (λ p. p.0) run ∙ r,
        ap (λ p. visible p.1) run
            ∙ v
            ∙ ap (λ p. label_calls message.id (for_failure h.categories) took ++ p)
                ((triage-Quiet w h _ files).at (m s).1 ∙ (read_before-Quiet w h message _).at s),
      )

  fill-ok :
      (x : RfqExtraction) (branch decision : Option Text) (s : Trace)
      → (b : Option FilledWorkbook) × ((fill w h x branch decision s).0 ≡ ok b)
  unfolding fill attempt pure
  fill-ok x branch decision s = elim (Bool-cases h.has_workbooks) [
    | inl e ↦ rw e (_, refl)
    | inr e ↦ rw e (_, refl)
  ]

  append-raised : (e : Effect) (s : Trace) → w.written s ≡ false → (append w h e s).0 ≡ raised
  unfolding append ask
  append-raised e s full = ground arith

  keep_extraction-raised :
      (email : NormalizedEmail) (match : Option RegionMatch) (triaged : Triaged F)
      (x : RfqExtraction) (s : Trace)
      → ((t : Trace) → w.written t ≡ false)
      → (keep_extraction w h email match triaged x s).0 ≡ raised
  unfolding keep_extraction
  keep_extraction-raised email match triaged x s full =
      let (b, e) = fill-ok x _ triaged.decision_id s in
      ap (λ p. p.0)
        (bind-ok (fill w h x _ triaged.decision_id) _ s b e
          ∙ bind-raised _ _ _ (append-raised _ _ (full _)))

  extract-raised :
      (email : NormalizedEmail) (match : Option RegionMatch) (triaged : Triaged F)
      (arrived : List SourceFile) (files : Option (List ReadDocument)) (x : RfqExtraction)
      (s : Trace)
      → h.has_extraction ≡ true
      → ((t : Trace) → w.written t ≡ false)
      → (try_extract w h email triaged.outcome arrived files s).0 ≡ ok x
      → (extract w h email match triaged arrived files s).0 ≡ raised
  unfolding extract on_option
  extract-raised email match triaged arrived files x s on full read =
      let m = try_extract w h email triaged.outcome arrived files in
      let next : Option RfqExtraction → M Reading =
        λ tried. on_option tried (pure nothing_read) (keep_extraction w h email match triaged) in
      simp on (
        ap (λ p. p.0) (bind-ok (attempt m) next s (some x) (ap (λ p. p.0) (attempt-ok m s x read)))
        ∙ keep_extraction-raised email match triaged x _ full)

  -- The files that an RFQ is read from: those that arrived before the verdict, or, where its files are
  -- read later, those that are fetched now.
  abbrev pub fetch :
      EmailMessage → List SourceFile → Option (List ReadDocument) → M (List SourceFile)
  fetch message arrived files =
      if reads_them_later w h message files arrived then download w h message else pure arrived

  fetch-Quiet :
      (message : EmailMessage) (arrived : List SourceFile) (files : Option (List ReadDocument))
      → Quiet (fetch message arrived files)
  fetch-Quiet message arrived files =
      Quiet-if _ _ _ (download-Quiet w h message) (Quiet-pure arrived)

  handle_rfq-raised :
      (message : EmailMessage) (email : NormalizedEmail) (triaged : Triaged F)
      (arrived fetched : List SourceFile) (files : Option (List ReadDocument)) (s : Trace)
      → (fetch message arrived files s).0 ≡ ok fetched
      → ((match : Option RegionMatch)
          → (extract w h email match triaged fetched files (fetch message arrived files s).1).0
            ≡ raised)
      → ((handle_rfq w h message email triaged arrived files s).0 ≡ raised)
        × (visible (handle_rfq w h message email triaged arrived files s).1 ≡ visible s)
  unfolding handle_rfq
  handle_rfq-raised message email triaged arrived fetched files s got fails =
      let m = fetch message arrived files in
      let t = (m s).1 in
      let run = bind-ok m _ s fetched got ∙ bind-raised _ _ t (fails _) in
      (
        ap (λ p. p.0) run,
        ap (λ p. visible p.1) run
            ∙ ((extract-Quiet w h email _ triaged _ _).at t
                ∙ (fetch-Quiet message arrived files).at s),
      )

  -- Where no line can be written to the journal, an RFQ that was read, from the files that arrived
  -- before the verdict or from those fetched after it, is neither forwarded nor labelled: the exception
  -- of the journal leaves `handle_verdict` before either is tried.
  pub handle_verdict-unwritten :
      (message : EmailMessage) (email : NormalizedEmail) (arrived fetched : List SourceFile)
      (files : Option (List ReadDocument)) (triaged : Triaged F) (x : RfqExtraction) (s : Trace)
      → h.has_extraction ≡ true
      → is_forward triaged.outcome.result.recommended_action ≡ true
      → ((t : Trace) → w.written t ≡ false)
      → (fetch message arrived files s).0 ≡ ok fetched
      → (try_extract w h email triaged.outcome fetched files (fetch message arrived files s).1).0
        ≡ ok x
      → ((handle_verdict w h message email arrived files triaged s).0 ≡ raised)
        × (visible (handle_verdict w h message email arrived files triaged s).1 ≡ visible s)
  unfolding handle_verdict
  handle_verdict-unwritten message email arrived fetched files triaged x s on rfq full got read =
      let (r, v) =
        handle_rfq-raised message email triaged arrived fetched files s got
          (λ match. extract-raised email match triaged fetched files x _ on full read) in
      rw rfq (let run = bind-raised _ _ s r in (ap (λ p. p.0) run, ap (λ p. visible p.1) run ∙ v))
