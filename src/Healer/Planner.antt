-- ===== src/Healer/Planner.antt =====
-- healing_strategies.hpp and healing_strategies.cpp: the strategies, and the planner that takes the
-- first that supports an incident.
pub mod Policy
use job_queue_event_processi.Prelude.{Bool, true, false, if◌then◌else◌, String, List, [], ◌∷◌}
use job_queue_event_processi.Healer.Domain.{
  IncidentType, watcher_gap, rate_limited_job, circuit_open, job_execution_failed,
  redis_dispatch_anomaly, unknown, Incident, HealingPlan,
}

pub record HealingStrategy : Type 0 where
  pub supports : Incident → Bool
  pub create_plan : Incident → HealingPlan

abbrev pub same_type : IncidentType → IncidentType → Bool
same_type watcher_gap watcher_gap = true
same_type rate_limited_job rate_limited_job = true
same_type circuit_open circuit_open = true
same_type job_execution_failed job_execution_failed = true
same_type redis_dispatch_anomaly redis_dispatch_anomaly = true
same_type unknown unknown = true
same_type _ _ = false

unfoldable pub make_plan : (name action : String) → (steps checks : List String) → HealingPlan
make_plan name action steps checks = record {
  strategy_name = name;
  action = action;
  dry_run = true;
  steps = steps;
  verification_checks = checks;
}

unfoldable pub watcher_recovery : HealingStrategy
watcher_recovery = record {
  supports = λ incident. same_type incident.type watcher_gap;
  create_plan = λ incident.
      make_plan "WatcherRecoveryStrategy" "RECOVER_MISSED_SCHEDULE_WINDOWS"
        ("Query jobs with PENDING or SCHEDULED status whose scheduleTime is in the missed window."
          ∷ "Reinsert missing jobs into the Redis delay queue using their scheduleTime."
          ∷ "Query RETRY jobs whose nextRetryTime is in the missed window and reinsert them into Redis."
          ∷ "Keep all database status transitions idempotent." ∷ [])
        ("Redis sorted set contains recovered job IDs."
          ∷ "No recovered job is already COMPLETED, FAILED, or CANCELLED."
          ∷ "Dispatcher emits Kafka publish logs for due recovered jobs." ∷ []);
}

unfoldable pub rate_limit_backoff : HealingStrategy
rate_limit_backoff = record {
  supports = λ incident. same_type incident.type rate_limited_job;
  create_plan = λ incident.
      make_plan "RateLimitBackoffStrategy" "WAIT_FOR_RETRY_WINDOW"
        ("Confirm the job is in RETRY status with nextRetryTime set."
          ∷ "Avoid immediate republish because rate limiting is an intentional safety control."
          ∷ "Let WatcherService requeue the job when nextRetryTime becomes due." ∷ [])
        ("Retry job moves from RETRY to SCHEDULED." ∷ "Job eventually moves to COMPLETED or FAILED."
          ∷ "Rate limiter warning volume drops below threshold." ∷ []);
}

unfoldable pub circuit_breaker : HealingStrategy
circuit_breaker = record {
  supports = λ incident. same_type incident.type circuit_open;
  create_plan = λ incident.
      make_plan "CircuitBreakerStrategy" "PAUSE_AND_ESCALATE_JOB_TYPE"
        ("Do not force execution while the circuit is open."
          ∷ "Group recent failures by job type and executor."
          ∷ "Check downstream dependency health for the affected job type."
          ∷ "Allow half-open recovery after the configured timeout." ∷ [])
        ("Circuit transitions to half-open after timeout."
          ∷ "A successful execution resets failure count."
          ∷ "No duplicate job execution is observed." ∷ []);
}

unfoldable pub job_failure : HealingStrategy
job_failure = record {
  supports = λ incident. same_type incident.type job_execution_failed;
  create_plan = λ incident.
      make_plan "JobFailureStrategy" "VERIFY_RETRY_OR_FINAL_STATE"
        ("Fetch the failed job from MySQL by jobId."
          ∷ "If retryCount is below max retry, confirm status is RETRY and nextRetryTime is set."
          ∷ "If retryCount reached the limit, confirm status is FAILED."
          ∷ "Do not replay EMAIL jobs automatically without idempotency confirmation." ∷ [])
        ("Job status is RETRY or FAILED." ∷ "Retry jobs are later picked up by WatcherService."
          ∷ "Failure reason is captured for operator review." ∷ []);
}

unfoldable pub redis_reconciliation : HealingStrategy
redis_reconciliation = record {
  supports = λ incident. same_type incident.type redis_dispatch_anomaly;
  create_plan = λ incident.
      make_plan "RedisReconciliationStrategy" "RECONCILE_REDIS_DELAY_QUEUE"
        ("Fetch job state from MySQL."
          ∷ "If job is SCHEDULED and still due, reinsert it into the Redis sorted set."
          ∷ "If job is terminal, keep it removed from Redis."
          ∷ "If job is QUEUED, verify Kafka publish before considering republish." ∷ [])
        ("Redis contains only non-terminal scheduled jobs." ∷ "Kafka receives due queued jobs once."
          ∷ "Database state remains the source of truth." ∷ []);
}

-- `HealingPlanner::plan`, with the fallback behind its loop.
unfoldable pub plan : List HealingStrategy → Incident → HealingPlan
plan [] incident =
    make_plan "FallbackStrategy" "ALERT_OPERATOR"
      ("Capture incident evidence and request manual review." ∷ [])
      ("Operator acknowledges the incident." ∷ [])
plan (strategy ∷ strategies) incident =
    if strategy.supports incident then strategy.create_plan incident else plan strategies incident

-- `createDefaultPlanner`.
unfoldable pub default_strategies : List HealingStrategy
default_strategies =
    watcher_recovery ∷ rate_limit_backoff ∷ circuit_breaker ∷ job_failure ∷ redis_reconciliation
    ∷ []
