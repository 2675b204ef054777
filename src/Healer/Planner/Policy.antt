-- ===== src/Healer/Planner/Policy.antt =====
-- What the default planner plans.
use job_queue_event_processi.Prelude.{true, String, ◌≡◌, refl}
use job_queue_event_processi.Healer.Domain.{
  IncidentType, watcher_gap, rate_limited_job, circuit_open, job_execution_failed,
  redis_dispatch_anomaly, unknown, Incident, HealingPlan,
}
use job_queue_event_processi.Healer.Planner.{
  make_plan, watcher_recovery, rate_limit_backoff, circuit_breaker, job_failure,
  redis_reconciliation, plan, default_strategies,
}

abbrev pub action_of : IncidentType → String
action_of watcher_gap = "RECOVER_MISSED_SCHEDULE_WINDOWS"
action_of rate_limited_job = "WAIT_FOR_RETRY_WINDOW"
action_of circuit_open = "PAUSE_AND_ESCALATE_JOB_TYPE"
action_of job_execution_failed = "VERIFY_RETRY_OR_FINAL_STATE"
action_of redis_dispatch_anomaly = "RECONCILE_REDIS_DELAY_QUEUE"
action_of unknown = "ALERT_OPERATOR"

abbrev pub plan_for : Incident → HealingPlan
plan_for = plan default_strategies

module _ (i : Incident) where
  typed : IncidentType → Incident
  typed t = record i { type = t }

  action-typed : (t : IncidentType) → (plan_for (typed t)).action ≡ action_of t
  unfolding plan default_strategies watcher_recovery rate_limit_backoff circuit_breaker job_failure
      redis_reconciliation make_plan typed
  action-typed watcher_gap = refl
  action-typed rate_limited_job = refl
  action-typed circuit_open = refl
  action-typed job_execution_failed = refl
  action-typed redis_dispatch_anomaly = refl
  action-typed unknown = refl

  dry_run-typed : (t : IncidentType) → (plan_for (typed t)).dry_run ≡ true
  unfolding plan default_strategies watcher_recovery rate_limit_backoff circuit_breaker job_failure
      redis_reconciliation make_plan typed
  dry_run-typed watcher_gap = refl
  dry_run-typed rate_limited_job = refl
  dry_run-typed circuit_open = refl
  dry_run-typed job_execution_failed = refl
  dry_run-typed redis_dispatch_anomaly = refl
  dry_run-typed unknown = refl

  -- A plan's action is a function of the incident's type.
  pub plan-action : (plan_for i).action ≡ action_of i.type
  unfolding typed
  plan-action = action-typed i.type

  -- Every plan is dry.
  pub plan-dry_run : (plan_for i).dry_run ≡ true
  unfolding typed
  plan-dry_run = dry_run-typed i.type
