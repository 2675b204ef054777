-- ===== src/Agent/EndToEnd.antt =====
-- From a line of the back end's log to the request that repairs it, through the self-healer's
-- detectors and planner and the agent. Between the two, the document is taken in by json.loads, of
-- which only the plan's action is asked.
use job_queue_event_processi.Prelude.{ℕ, ◌≤◌, ◌≡◌, ◌∙◌, refl, ap, subst, true, false, some}
use job_queue_event_processi.Healer.Text.{Text, codes}
use job_queue_event_processi.Healer.Domain.{Incident, IncidentType}
use job_queue_event_processi.Healer.Detectors.{default_chain}
use job_queue_event_processi.Healer.Detectors.Order.{
  signals, first_signal, Detected, IsReport, default_chain_decides,
}
use job_queue_event_processi.Healer.Planner.{plan, default_strategies}
use job_queue_event_processi.Healer.Planner.Policy.{action_of, plan-action}
use job_queue_event_processi.Healer.Json.{write}
use job_queue_event_processi.Healer.Main.{process_line}
use job_queue_event_processi.Agent.Models.{Settings, SelfHealerOutput}
use job_queue_event_processi.Agent.Client.{Service}
use job_queue_event_processi.Agent.Orchestrator.{Outside, AgentState, process_self_healer_output}
use job_queue_event_processi.Agent.Orchestrator.Recovery.{healed, output-healed}

-- What is detected in a line with a signal.
detected-IsReport :
    (t : IncidentType) (line : Text) (i : Incident)
    → first_signal signals line ≡ some t
    → default_chain line ≡ some i
    → IsReport t line i
detected-IsReport t line i signal found =
    subst (λ o. Detected (some t) line o) found
      (subst (λ n. Detected n line (default_chain line)) signal (default_chain_decides line))

module _ {S : Type 0} (service : Service S) (settings : Settings) (o : Outside) where
  -- For a line whose first signal has a type, and the incident that the self-healer detects in it, the
  -- self-healer prints the document of the incident and its plan. On an output whose action is that
  -- plan's, the agent, with execution on, dry-run off and a threshold of at most 90, requests the
  -- recovery of the watcher for a watcher gap, the reconciliation of Redis for a dispatch anomaly, and
  -- nothing for the other types.
  pub line_healed :
      (on : settings.auto_execute ≡ true) (wet : settings.dry_run ≡ false)
      (low : settings.min_confidence ≤ 90) (t : IncidentType) (line : Text)
      (signal : first_signal signals line ≡ some t) (i : Incident)
      (found : default_chain line ≡ some i) (out : SelfHealerOutput)
      (taken_in : out.plan.action ≡ codes (plan default_strategies i).action) (new_id : Text)
      (now : ℕ) (state : AgentState S)
      → (process_line default_chain default_strategies line
          ≡ some (write i (plan default_strategies i)))
        × ((process_self_healer_output service settings o new_id now out state).1.world
            ≡ healed service settings o t state.world)
  unfolding process_line
  line_healed on wet low t line signal i found out taken_in new_id now state =
      let r = detected-IsReport t line i signal found in
      let same : out.plan.action ≡ codes (action_of t) =
        taken_in ∙ ap codes (plan-action i) ∙ ap (λ u. codes (action_of u)) r.kind in
      (
        rw (process_line, found) refl,
        output-healed service settings o on wet low t new_id now out state same,
      )
