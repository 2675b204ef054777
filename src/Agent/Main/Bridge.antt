-- ===== src/Agent/Main/Bridge.antt =====
-- log-bridge/bridge.py with the agent that answers it.
use job_queue_event_processi.Prelude.{ℕ, suc, if◌then◌else◌, Option, none, some, List, [], ◌∷◌}
use job_queue_event_processi.Healer.Text.{Text, codes, starts_with}
use job_queue_event_processi.Agent.Models.{Settings, SelfHealerOutput}
use job_queue_event_processi.Agent.Client.{Service}
use job_queue_event_processi.Agent.Orchestrator.{Outside, AgentState}
use job_queue_event_processi.Agent.Main.{ingest_self_healer_payload}

-- `loads` is `json.loads`, `none` where it fails, and `validate` the check of the fields, which the agent
-- makes. `ids` gives each run of the agent the id and the time that it would take.
module _ {S J : Type 0} (service : Service S) (settings : Settings) (o : Outside)
    (loads : Text → Option J) (validate : J → Option SelfHealerOutput) (ids : ℕ → Text × ℕ) where
  -- `forward_to_agent`; what it raises is only logged.
  unfoldable pub forward_to_agent : (n : ℕ) → J → AgentState S → AgentState S
  forward_to_agent n payload state =
      (ingest_self_healer_payload service settings o (ids n).0 (ids n).1 (validate payload) state).1

  -- The loop of `process_log_file`.
  unfoldable pub forward_lines : (n : ℕ) → List Text → AgentState S → AgentState S
  forward_lines n [] state = state
  forward_lines n (line ∷ lines) state =
      let skipped = forward_lines (suc n) lines state in
      let stripped = o.program.strip line in
      if starts_with (codes "{") stripped
      then (elim (loads stripped) [
        | none ↦ skipped
        | some payload ↦ forward_lines (suc n) lines (forward_to_agent n payload state)
      ])
      else skipped

  -- `process_log_file` behind its run of the self-healer.
  unfoldable pub process_log_file : (stdout : Text) → AgentState S → AgentState S
  process_log_file stdout = forward_lines 0 (o.program.splitlines stdout)
