-- ===== src/Agent/Planner.antt =====
-- agents/analyzer.py and agents/planner.py.
use job_queue_event_processi.Prelude.{ℕ, ltb, true, false, if◌then◌else◌, Option, none, some, ◌++◌}
use job_queue_event_processi.Healer.Text.{Text, codes}
use job_queue_event_processi.Agent.Models.{
  Settings, IncidentPayload, AnalysisResult, PlannedAction, same_text, given,
}
use job_queue_event_processi.Agent.Rules.{
  alert, verify, action_policy, plan_from_self_healer, plan_with_rules, analyze_from_self_healer,
  analyze_with_rules,
}

-- What the model's answer holds of the fields that the agent reads.
pub record Answer : Type 0 where
  pub root_cause : Option Text
  pub impact : Option Text
  pub recommended_action : Option Text
  pub confidence : Option ℕ
  pub reasoning : Option Text

-- `data.get(key, default)`.
abbrev pub get_or {ℓ} : {A : Type ℓ} → A → Option A → A
get_or d none = d
get_or d (some a) = a

-- `_analyze_with_llm` behind the call; an `AnalysisResult` with a confidence above 1 raises.
unfoldable pub analyze_with_llm : IncidentPayload → Answer → Option AnalysisResult
analyze_with_llm incident answer =
    if ltb 100 (get_or 50 answer.confidence)
    then none
    else some (record {
      root_cause = get_or (codes "Unknown") answer.root_cause;
      impact = get_or (codes "Unknown") answer.impact;
      recommended_action = get_or alert answer.recommended_action;
      confidence = get_or 50 answer.confidence;
      reasoning = get_or (codes "LLM analysis") answer.reasoning;
      used_llm = true;
      strategy = get_or none incident.plan;
    })

-- `upper` is Python's `str.upper`, `show` prints a number, `below` prints what the planner adds to
-- the rationale, and `llm` is the answer of the language model, `none` where the call fails.
module _ (settings : Settings) (upper : Text → Text) (show : ℕ → Text)
    (below : (confidence threshold : ℕ) → Text)
    (llm : IncidentPayload → Option ℕ → Option Answer) where
  abbrev pub attempt_llm : IncidentPayload → Option ℕ → Option AnalysisResult
  attempt_llm incident health = elim (llm incident health) [
    | none ↦ none
    | some answer ↦ analyze_with_llm incident answer
  ]

  -- `AnalyzerAgent.analyze`, behind its call for the back end's health.
  unfoldable pub analyze : IncidentPayload → (health : Option ℕ) → AnalysisResult
  analyze incident health = elim incident.self_healer [
    | some output ↦ analyze_from_self_healer upper show output health
    | none ↦
        if settings.llm
        then (elim (attempt_llm incident health) [
          | some analysis ↦ analysis
          | none ↦ analyze_with_rules upper show incident health
        ])
        else analyze_with_rules upper show incident health
  ]

  -- `_apply_llm_override`.
  unfoldable pub apply_llm_override :
      PlannedAction → AnalysisResult → IncidentPayload → PlannedAction
  apply_llm_override planned analysis incident =
      let action = upper analysis.recommended_action in
      let policy = action_policy action in
      record planned {
        action = action;
        confidence = analysis.confidence;
        rationale = analysis.reasoning;
        endpoint = policy.endpoint;
        auto_execute = policy.auto_execute;
        job_id =
            if same_text action verify
            then (elim (given incident.job_id) [ none ↦ planned.job_id | some id ↦ some id ])
            else planned.job_id;
      }

  abbrev pub first_plan : IncidentPayload → AnalysisResult → PlannedAction
  first_plan incident analysis = elim incident.self_healer [
    | some output ↦ plan_from_self_healer output analysis
    | none ↦ plan_with_rules analysis incident
  ]

  abbrev pub guard_settings : PlannedAction → PlannedAction
  guard_settings planned =
      if settings.auto_execute then planned else record planned { auto_execute = false }

  abbrev pub guard_confidence : PlannedAction → PlannedAction
  guard_confidence planned =
      if ltb planned.confidence settings.min_confidence
      then record planned {
        auto_execute = false;
        rationale = planned.rationale ++ below planned.confidence settings.min_confidence;
      }
      else planned

  -- `PlannerAgent.plan`.
  unfoldable pub plan : IncidentPayload → AnalysisResult → PlannedAction
  plan incident analysis =
      let first = first_plan incident analysis in
      let planned =
        if analysis.used_llm then apply_llm_override first analysis incident else first in
      guard_confidence (guard_settings planned)
