-- ===== src/Agent/Main.antt =====
-- main.py: the agent's HTTP interface, and log-bridge/bridge.py, which feeds it.
pub mod Bridge
use job_queue_event_processi.Prelude.{
  ℕ, true, false, if◌then◌else◌, Option, none, some, List, [], ◌∷◌,
}
use job_queue_event_processi.Healer.Text.{Text, starts_with, codes}
use job_queue_event_processi.Agent.Models.{
  Settings, SelfHealerOutput, IncidentPayload, AgentRunResult, same_text,
}
use job_queue_event_processi.Agent.Client.{Service}
use job_queue_event_processi.Agent.Healing.{is_available}
use job_queue_event_processi.Agent.Orchestrator.{
  Outside, AgentState, get_history, process_incident, process_self_healer_output, process_log_lines,
}

-- An answer, or the status of a failure; an error that a handler raises is answered with 500.
pub data Answered (A : Type 0) : Type 0 where
  ok : A → Answered A
  status : ℕ → Answered A

abbrev pub or_500 : {A : Type 0} → Option A → Answered A
or_500 none = status 500
or_500 (some a) = ok a

-- `GET /runs`.
unfoldable pub list_runs : (limit : ℕ) → List AgentRunResult → Answered (List AgentRunResult)
list_runs limit history = ok (get_history limit history)

abbrev pub first_run : (incident_id : Text) → List AgentRunResult → Answered AgentRunResult
first_run incident_id [] = status 404
first_run incident_id (run ∷ runs) =
    if same_text run.incident_id incident_id then ok run else first_run incident_id runs

-- `GET /runs/{incident_id}`.
unfoldable pub get_run : (incident_id : Text) → List AgentRunResult → Answered AgentRunResult
get_run incident_id history = first_run incident_id (get_history 100 history)

module _ {S : Type 0} (service : Service S) (settings : Settings) (o : Outside) where
  -- `POST /incidents`.
  unfoldable pub ingest_incident :
      (new_id : Text)
      → (now : ℕ) → IncidentPayload
      → AgentState S
      → Answered AgentRunResult × AgentState S
  ingest_incident new_id now incident state =
      let r = process_incident service settings o new_id now incident state in (or_500 r.0, r.1)

  -- `POST /incidents/self-healer`; a payload that does not have the fields raises an error.
  unfoldable pub ingest_self_healer_payload :
      (new_id : Text)
      → (now : ℕ) → Option SelfHealerOutput
      → AgentState S
      → Answered AgentRunResult × AgentState S
  ingest_self_healer_payload new_id now none state = (status 500, state)
  ingest_self_healer_payload new_id now (some output) state =
      let r = process_self_healer_output service settings o new_id now output state in
      (or_500 r.0, r.1)

  -- `POST /incidents/analyze-logs`.
  unfoldable pub analyze_logs :
      (ids : ℕ → Text × ℕ)
      → List Text
      → AgentState S
      → Answered (List AgentRunResult) × AgentState S
  analyze_logs ids lines state =
      if is_available settings o.program
      then (let r = process_log_lines service settings o ids lines state in (or_500 r.0, r.1))
      else (status 503, state)
