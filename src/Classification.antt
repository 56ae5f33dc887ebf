-- ===== src/Classification.antt =====
-- src/services/classification/pipeline.py. The model's answers are an argument of `classify`, and it may
-- raise.
pub mod Rules
mod Examples
use rfq_workflow_agent.Base.{
  ℕ, Bool, true, false, not, Option, none, some, List, [], ◌∷◌, ◌++◌, if◌then◌else◌, is_some,
}
use rfq_workflow_agent.Base.Text.{Text, txt}
use rfq_workflow_agent.Domain.Enums.{EmailCategory, Direction, DecisionPath, Priority}
use rfq_workflow_agent.Domain.Models.{
  NormalizedEmail, SplitThread, Hints, ClassificationResult, ClassificationOutcome,
}
use rfq_workflow_agent.Domain.Registries.{Registries}
use rfq_workflow_agent.Domain.FastPath.{FastPathDecision, match_fast_path}
use rfq_workflow_agent.Domain.Policy.{Float, Draft, Thresholds, finalize}
use rfq_workflow_agent.Domain.Hints.{Readers, build_hints}
use rfq_workflow_agent.Preprocessing.Thread.{split_thread}
use rfq_workflow_agent.Preprocessing.Boilerplate.{strip_boilerplate}

pub record LlmClassification (F : Type 0) : Type 0 where
  pub category : EmailCategory
  pub direction : Direction
  pub is_rfq : Bool
  pub confidence : F
  pub priority_hint : Priority
  pub reasoning : Text
  pub evidence : List Text

-- An answer of the model, with what it cost.
pub record Completion (F : Type 0) : Type 0 where
  pub value : LlmClassification F
  pub model : Text
  pub latency_ms : ℕ
  pub input_tokens : Option ℕ
  pub output_tokens : Option ℕ

pub record ClassificationPipeline (F : Type 0) : Type 0 where
  pub registries : Registries F
  pub thresholds : Thresholds F
  pub fast_path_enabled : Bool
  pub min_latest_chars : ℕ
  pub readers : Readers

-- `_from_rule`
unfoldable pub from_rule : {F : Type 0} → FastPathDecision F → Draft F
from_rule d = record {
  category = d.category;
  direction = d.direction;
  confidence = d.confidence;
  decision_path = DecisionPath.rules_fast_path;
  is_rfq = none;
  priority = Priority.normal;
  reasoning = txt "Matched the deterministic rule " ++ (d.rule ++ txt ".");
  evidence = [];
  rule_hits = d.rule ∷ [];
}

-- `_from_model`
unfoldable pub from_model : {F : Type 0} → LlmClassification F → Draft F
from_model a = record {
  category = a.category;
  direction = a.direction;
  confidence = a.confidence;
  decision_path = DecisionPath.llm;
  is_rfq = some a.is_rfq;
  priority = a.priority_hint;
  reasoning = a.reasoning;
  evidence = a.evidence;
  rule_hits = [];
}

module _ {F : Type 0} ⦃f : Float F⦄ (p : ClassificationPipeline F) where
  -- `_read_thread` and `_without_boilerplate`
  unfoldable pub read_thread : NormalizedEmail → SplitThread
  read_thread email =
      let t = split_thread email.body_text p.min_latest_chars in
      record t { latest_message = (strip_boilerplate t.latest_message).0 }

  -- What the hard rules decide, where they are switched on.
  unfoldable pub decided : NormalizedEmail → Option (FastPathDecision F)
  decided email =
      if p.fast_path_enabled then match_fast_path p.registries email (read_thread email) else none

  -- `needs_the_model`
  unfoldable pub needs_the_model : NormalizedEmail → Bool
  unfolding decided
  needs_the_model email =
      if not p.fast_path_enabled
      then true
      else not (is_some (match_fast_path p.registries email (read_thread email)))

  -- `_finalize`
  unfoldable pub finalize_draft : Draft F → NormalizedEmail → ClassificationResult F
  finalize_draft draft email =
      let thread = read_thread email in
      let hints = build_hints p.registries p.readers email thread in
      finalize draft hints.signals hints.attachment_kinds p.thresholds
        (email.parse_warnings ++ thread.warnings)

  unfoldable pub by_rule : NormalizedEmail → FastPathDecision F → ClassificationOutcome F
  by_rule email d = record {
    result = finalize_draft (from_rule d) email;
    thread = read_thread email;
    hints = build_hints p.registries p.readers email (read_thread email);
    model = none;
    latency_ms = none;
    input_tokens = none;
    output_tokens = none;
  }

  unfoldable pub by_model : NormalizedEmail → Completion F → ClassificationOutcome F
  by_model email c = record {
    result = finalize_draft (from_model c.value) email;
    thread = read_thread email;
    hints = build_hints p.registries p.readers email (read_thread email);
    model = some c.model;
    latency_ms = some c.latency_ms;
    input_tokens = c.input_tokens;
    output_tokens = c.output_tokens;
  }

  unfoldable pub classified :
      (invoke : SplitThread → Hints → Option (Completion F))
      → NormalizedEmail
      → Option (FastPathDecision F)
      → Option (ClassificationOutcome F)
  classified invoke email (some d) = some (by_rule email d)
  classified invoke email none =
      elim (invoke (read_thread email)
        (build_hints p.registries p.readers email (read_thread email))) [
          | none ↦ none
          | some c ↦ some (by_model email c)
        ]

  -- `classify`; `none` where the call of the model raises.
  unfoldable pub classify :
      (invoke : SplitThread → Hints → Option (Completion F))
      → NormalizedEmail
      → Option (ClassificationOutcome F)
  unfolding classified decided
  classify invoke email = classified invoke email (decided email)
