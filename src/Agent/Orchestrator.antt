-- ===== src/Agent/Orchestrator.antt =====
-- orchestrator.py: the pipeline from an incident to what is done about it, and the history of runs.
pub mod Control
pub mod History
pub mod Recovery
use job_queue_event_processi.Prelude.{
  ℕ, zero, suc, ltb, ◌-◌, Bool, true, false, not, ◌||◌, if◌then◌else◌, Option, none, some, List, [],
  ◌∷◌, ◌++◌, length, drop,
}
use mathlib.Core.List.{reverse}
use job_queue_event_processi.Healer.Text.{Text, codes}
use job_queue_event_processi.Agent.Models.{
  Settings, SelfHealerOutput, IncidentPayload, AnalysisResult, PlannedAction, ExecutionResult,
  AgentRunResult, same_text, given, from_self_healer,
}
use job_queue_event_processi.Agent.Rules.{pause, alert}
use job_queue_event_processi.Agent.Client.{Service}
use job_queue_event_processi.Agent.Planner.{Answer, analyze, plan, get_or}
use job_queue_event_processi.Agent.Executor.{is_executed, execute}
use job_queue_event_processi.Agent.Healing.{Program, enrich_incident, analyze_log_lines}

-- The code that the agent calls and that is not its own: the self-healer's program, the language
-- model, `str.upper`, the printing of numbers, the text of a raised error, and what the planner adds
-- to a rationale.
pub record Outside : Type 0 where
  pub program : Program
  pub llm : IncidentPayload → Option ℕ → Option Answer
  pub upper : Text → Text
  pub show : ℕ → Text
  pub trouble : Text
  pub below : (confidence threshold : ℕ) → Text

pub record AgentState (S : Type 0) : Type 0 where
  pub history : List AgentRunResult
  pub world : S

abbrev pub max_history : ℕ
max_history = 100

-- `xs[-n:]` for an `n` above 0.
abbrev pub last_of {ℓ} : {A : Type ℓ} → ℕ → List A → List A
last_of n xs = drop (length xs - n) xs

-- `self._history.append(result)` and the cut.
unfoldable pub remember : AgentRunResult → List AgentRunResult → List AgentRunResult
remember result history =
    let longer = history ++ (result ∷ []) in
    if ltb max_history (length longer) then last_of max_history longer else longer

-- `get_history`; where the limit is 0, `xs[-0:]` is the whole list.
unfoldable pub get_history : (limit : ℕ) → List AgentRunResult → List AgentRunResult
get_history zero history = reverse history
get_history (suc n) history = reverse (last_of (suc n) history)

-- Whether a run is passed on to the operators.
abbrev pub is_escalated : PlannedAction → ExecutionResult → Bool
is_escalated plan execution =
    if is_executed plan
    then not execution.success
    else same_text plan.action alert || same_text plan.action pause

module _ {S : Type 0} (service : Service S) (settings : Settings) (o : Outside) where
  -- `AnalyzerAgent.analyze` with its request for the back end's health.
  abbrev pub analysis_of : IncidentPayload → S → AnalysisResult
  analysis_of incident s = analyze settings o.upper o.show o.below o.llm incident (service.health s)

  abbrev pub plan_of : IncidentPayload → S → PlannedAction
  plan_of incident s = plan settings o.upper o.show o.below o.llm incident (analysis_of incident s)

  abbrev pub run_of_incident : (id : Text) → IncidentPayload → S → ExecutionResult → AgentRunResult
  run_of_incident id incident s execution = record {
    incident_id = id;
    incident_type = incident.type;
    analysis = analysis_of incident s;
    plan = plan_of incident s;
    execution = execution;
    escalated = is_escalated (plan_of incident s) execution;
    self_healer_strategy = (plan_of incident s).strategy;
  }

  -- What follows `enrich_incident` in `process_incident`; `none` where the executor raises an error.
  unfoldable pub process_enriched :
      (id : Text) → IncidentPayload → AgentState S → Option AgentRunResult × AgentState S
  process_enriched id incident state =
      let r = execute service settings o.trouble (plan_of incident state.world) state.world in
      elim r.0 [
        | none ↦ (none, record state { world = r.1 })
        | some execution ↦
            let result = run_of_incident id incident state.world execution in
            (some result, record { history = remember result state.history; world = r.1 })
      ]

  -- `process_incident`, with the id and the time that it would give.
  unfoldable pub process_incident :
      (new_id : Text)
      → (now : ℕ) → IncidentPayload
      → AgentState S
      → Option AgentRunResult × AgentState S
  process_incident new_id now incident state =
      let id = get_or new_id (given incident.incident_id) in
      let named = record incident {
        incident_id = some id;
        timestamp = some (get_or now incident.timestamp);
      } in
      elim (enrich_incident settings o.program named) [
        | none ↦ (none, state)
        | some incident' ↦ process_enriched id incident' state
      ]

  -- `process_self_healer_output`.
  unfoldable pub process_self_healer_output :
      (new_id : Text)
      → (now : ℕ) → SelfHealerOutput
      → AgentState S
      → Option AgentRunResult × AgentState S
  process_self_healer_output new_id now output =
      process_incident new_id now (from_self_healer output (codes "self-healer"))

  -- The loop of `process_log_lines` from its `n`-th output on, up to the first run that raises an error;
  -- `ids` gives each run the id and the time that it would take.
  unfoldable pub process_outputs :
      (ids : ℕ → Text × ℕ)
      → (n : ℕ) → List SelfHealerOutput
      → AgentState S
      → Option (List AgentRunResult) × AgentState S
  process_outputs ids n [] state = (some [], state)
  process_outputs ids n (output ∷ outputs) state =
      let r = process_self_healer_output (ids n).0 (ids n).1 output state in
      elim r.0 [
        | none ↦ (none, r.1)
        | some result ↦
            let rest = process_outputs ids (suc n) outputs r.1 in
            (elim rest.0 [ none ↦ none | some results ↦ some (result ∷ results) ], rest.1)
      ]

  unfoldable pub process_log_lines :
      (ids : ℕ → Text × ℕ) → List Text → AgentState S → Option (List AgentRunResult) × AgentState S
  process_log_lines ids lines state = elim (analyze_log_lines settings o.program lines) [
    | none ↦ (none, state)
    | some outputs ↦ process_outputs ids 0 outputs state
  ]
