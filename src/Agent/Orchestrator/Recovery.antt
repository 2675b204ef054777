-- ===== src/Agent/Orchestrator/Recovery.antt =====
-- What a log line of the back end leads to: the self-healer's document, the agent's plan, and the
-- request that it makes.
use job_queue_event_processi.Prelude.{
  ℕ, ltb, ◌≤◌, ◌≡◌, ◌∙◌, ◌⊎◌, inl, inr, refl, sym, ap, subst, Bool, true, false, not, ◌||◌, ◌&&◌,
  max, some, Option-cases, arith,
}
use job_queue_event_processi.Healer.Text.{Text, codes}
use job_queue_event_processi.Healer.Domain.{
  IncidentType, watcher_gap, rate_limited_job, circuit_open, job_execution_failed,
  redis_dispatch_anomaly, unknown,
}
use job_queue_event_processi.Healer.Planner.Policy.{action_of}
use job_queue_event_processi.Agent.Models.{
  Settings, IncidentPayload, SelfHealerOutput, AnalysisResult, PlannedAction, same_text,
  from_self_healer,
}
use job_queue_event_processi.Agent.Rules.{
  verify, recover_path, reconcile_path, action_policy, severity_confidence, plan_from_self_healer,
  analyze_from_self_healer,
}
use job_queue_event_processi.Agent.Client.{Service, post}
use job_queue_event_processi.Agent.Planner.{analyze, guard_settings, plan}
use job_queue_event_processi.Agent.Executor.{is_watched, has_path, execute}
use job_queue_event_processi.Agent.Executor.Safety.{execute-idle, execute-path}
use job_queue_event_processi.Agent.Healing.{enrich_incident}
use job_queue_event_processi.Agent.Orchestrator.{
  Outside, AgentState, plan_of, process_enriched, process_incident, process_self_healer_output,
}
use job_queue_event_processi.Agent.Orchestrator.Control.{pick}

module _ {S : Type 0} (service : Service S) (settings : Settings) (o : Outside) where
  process_enriched-world :
      (id : Text) (i : IncidentPayload) (state : AgentState S)
      → (process_enriched service settings o id i state).1.world
        ≡ (execute service settings o.trouble
            (plan_of service settings o i state.world)
            state.world).1
  unfolding process_enriched
  process_enriched-world id i state =
      elim (Option-cases
        (execute service settings o.trouble (plan_of service settings o i state.world)
          state.world).0) [
            | inl raised ↦ rw (process_enriched, raised) refl
            | inr (execution, done) ↦ rw (process_enriched, done) refl
          ]

  -- The incident that an output becomes, with its id and its time.
  abbrev incident_of : (new_id : Text) → (now : ℕ) → SelfHealerOutput → IncidentPayload
  incident_of new_id now out = record (from_self_healer out (codes "self-healer")) {
    incident_id = some new_id;
    timestamp = some now;
  }

  output-world :
      (new_id : Text) (now : ℕ) (out : SelfHealerOutput) (state : AgentState S)
      → (process_self_healer_output service settings o new_id now out state).1.world
        ≡ (execute service settings o.trouble
            (plan_of service settings o (incident_of new_id now out) state.world)
            state.world).1
  unfolding process_self_healer_output process_incident enrich_incident from_self_healer
  output-world new_id now out state =
      process_enriched-world new_id (incident_of new_id now out) state

  module _ (new_id : Text) (now : ℕ) (out : SelfHealerOutput) (s : S) where
    abbrev planned : PlannedAction
    planned = plan_of service settings o (incident_of new_id now out) s

    abbrev analysis : AnalysisResult
    analysis = analyze_from_self_healer o.upper o.show out (service.health s)

    planned-action : planned.action ≡ out.plan.action
    unfolding plan analyze from_self_healer analyze_from_self_healer plan_from_self_healer
    planned-action =
        let p = plan_from_self_healer out analysis in
        let q = guard_settings settings o.upper o.show o.below o.llm p in
        let P : PlannedAction → Type 0 = λ x. x.action ≡ out.plan.action in
        let q-P : P q = pick P settings.auto_execute p _ refl refl in
        pick P (ltb q.confidence settings.min_confidence) _ q q-P q-P

    planned-kept :
        settings.auto_execute ≡ true
        → settings.min_confidence ≤ (action_policy out.plan.action).confidence
        → planned ≡ plan_from_self_healer out analysis
    unfolding plan analyze from_self_healer analyze_from_self_healer plan_from_self_healer
    planned-kept on enough =
        let sure : ltb
              (max (action_policy out.plan.action).confidence
                (severity_confidence (o.upper out.incident.severity)))
              settings.min_confidence
            ≡ false =
          ground arith in
        rw (plan, on, sure) refl

    idle-kept :
        is_watched out.plan.action ≡ true → (execute service settings o.trouble planned s).1 ≡ s
    idle-kept watched =
        let same : is_watched planned.action ≡ true = ap is_watched planned-action ∙ watched in
        execute-idle service settings o.trouble planned s (ground arith)

    verified-kept :
        same_text out.plan.action verify ≡ true
        → (execute service settings o.trouble planned s).1 ≡ s
    verified-kept checked =
        let same : same_text planned.action verify ≡ true =
          ap (λ a. same_text a verify) planned-action ∙ checked in
        execute-idle service settings o.trouble planned s (ground arith)

    -- What `is_idle` is for a plan that the policy makes of an action.
    abbrev idle_action : Text → Bool
    idle_action action =
        settings.dry_run
        || (same_text action verify
            || (is_watched action
                || not (
                    (action_policy action).auto_execute
                    && has_path (action_policy action).endpoint)))

    acting-posts :
        (action path : Text)
        → settings.auto_execute ≡ true
        → settings.min_confidence ≤ (action_policy action).confidence
        → out.plan.action ≡ action
        → idle_action action ≡ false
        → (action_policy action).endpoint ≡ some path
        → (path ≡ recover_path) ⊎ (path ≡ reconcile_path)
        → (execute service settings o.trouble planned s).1 ≡ (post service path s).1
    unfolding plan_from_self_healer
    acting-posts action path on enough e busy at either =
        let first = plan_from_self_healer out analysis in
        let kept =
          planned-kept on
            (subst (λ a. settings.min_confidence ≤ (action_policy a).confidence) (sym e) enough) in
        ap (λ p. (execute service settings o.trouble p s).1) kept
        ∙ execute-path service settings o.trouble first s path (ap idle_action e ∙ busy)
            (ap (λ a. (action_policy a).endpoint) e ∙ at) either

  -- The back end behind the request that belongs to a type of incident.
  abbrev pub healed : IncidentType → S → S
  healed watcher_gap s = (post service recover_path s).1
  healed redis_dispatch_anomaly s = (post service reconcile_path s).1
  healed _ s = s

  module _ (on : settings.auto_execute ≡ true) (wet : settings.dry_run ≡ false)
      (low : settings.min_confidence ≤ 90) where
    execute-healed :
        (t : IncidentType) (new_id : Text) (now : ℕ) (out : SelfHealerOutput) (s : S)
        → out.plan.action ≡ codes (action_of t)
        → (execute service settings o.trouble (planned new_id now out s) s).1 ≡ healed t s
    unfolding same_text action_policy
    execute-healed watcher_gap new_id now out s e =
        acting-posts new_id now out s (codes (action_of watcher_gap)) recover_path on (omega arith)
          e (rw wet refl) refl (inl refl)
    execute-healed redis_dispatch_anomaly new_id now out s e =
        acting-posts new_id now out s (codes (action_of redis_dispatch_anomaly)) reconcile_path on
          low e (rw wet refl) refl (inr refl)
    execute-healed job_execution_failed new_id now out s e =
        verified-kept new_id now out s (ap (λ a. same_text a verify) e)
    execute-healed rate_limited_job new_id now out s e =
        idle-kept new_id now out s (ap is_watched e)
    execute-healed circuit_open new_id now out s e = idle-kept new_id now out s (ap is_watched e)
    execute-healed unknown new_id now out s e = idle-kept new_id now out s (ap is_watched e)

    -- A document of the self-healer is acted on by the type of its incident.
    pub output-healed :
        (t : IncidentType) (new_id : Text) (now : ℕ) (out : SelfHealerOutput) (state : AgentState S)
        → out.plan.action ≡ codes (action_of t)
        → (process_self_healer_output service settings o new_id now out state).1.world
          ≡ healed t state.world
    output-healed t new_id now out state e =
        output-world new_id now out state ∙ execute-healed t new_id now out state.world e
