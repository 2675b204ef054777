-- ===== src/Queue/Admin.antt =====
-- service/AdminService.java: its operations, with dto/AdminActionResult.java. The texts of
-- a result are left out but for its action.
pub mod Requeue
use job_queue_event_processi.Prelude.{
  ℕ, suc, String, Bool, true, false, not, ◌||◌, if◌then◌else◌, Option, none, some, List, [], ◌∷◌,
  length,
}
use job_queue_event_processi.Queue.Job.{
  JobStatus, scheduled, queued, completed, cancelled, retry, is, Job,
}
use job_queue_event_processi.Queue.Repository.{
  find_by_id, save, time_of, find_overdue_scheduled, find_retry_due,
}
use job_queue_event_processi.Queue.State.{Backend, id_text, send_job, schedule_job}
use job_queue_event_processi.Queue.Watcher.{save_scheduled, trigger_recovery}
use job_queue_event_processi.Queue.Consumer
use job_queue_event_processi.Queue.Consumer.{save_job, CircuitState, get_circuit_states}
use job_queue_event_processi.Queue.Service.{counts, statuses}
use job_queue_event_processi.Prelude.Dict.{Dict}

pub record ActionResult : Type 0 where
  pub action : String
  pub success : Bool
  pub affected_count : ℕ

abbrev pub ok : String → ℕ → ActionResult
ok action n = record { action = action; success = true; affected_count = n }

abbrev pub fail : String → ActionResult
fail action = record { action = action; success = false; affected_count = 0 }

unfoldable pub recover_watcher : (now : ℕ) → Backend → ActionResult × Backend
recover_watcher now s =
    let r = trigger_recovery now s in (ok "RECOVER_MISSED_SCHEDULE_WINDOWS" r.0, r.1)

unfoldable pub reinsert_overdue : List Job → ℕ → Backend → ℕ × Backend
reinsert_overdue [] count s = (count, s)
reinsert_overdue (job ∷ js) count s =
    let due = is job.status scheduled in
    reinsert_overdue js (if due then suc count else count)
      (if due then schedule_job job.id (time_of job.schedule_time) s else s)

unfoldable pub requeue_due : List Job → ℕ → Backend → ℕ × Backend
requeue_due [] count s = (count, s)
requeue_due (job ∷ js) count s =
    let due = is job.status retry in
    requeue_due js (if due then suc count else count)
      (if due then schedule_job job.id (time_of job.next_retry_time) (save_scheduled job s) else s)

unfoldable pub reconcile_redis : (now : ℕ) → Backend → ActionResult × Backend
reconcile_redis now s =
    let first = reinsert_overdue (find_overdue_scheduled now 500 s.jobs) 0 s in
    let second = requeue_due (find_retry_due now 500 first.1.jobs) first.0 first.1 in
    (ok "RECONCILE_REDIS_DELAY_QUEUE" second.0, second.1)

unfoldable pub requeue_job : ℕ → Backend → ActionResult × Backend
requeue_job n s = elim (find_by_id n s.jobs) [
  | none ↦ (fail "REQUEUE_JOB", s)
  | some job ↦
      if is job.status completed || is job.status cancelled
      then (fail "REQUEUE_JOB", s)
      else (ok "REQUEUE_JOB" 1, send_job (id_text n) (save_job (record job { status = queued }) s))
]

unfoldable pub reset_circuit : String → Backend → ActionResult × Backend
reset_circuit type s = (ok "RESET_CIRCUIT" 1, Consumer.reset_circuit type s)

-- `getDetailedHealth`.
pub record Health : Type 0 where
  pub job_stats : List (JobStatus × ℕ)
  pub circuit_states : Dict CircuitState
  pub overdue_scheduled : ℕ

unfoldable pub get_detailed_health : (now : ℕ) → Backend → Health
get_detailed_health now s = record {
  job_stats = counts statuses s.jobs;
  circuit_states = get_circuit_states s;
  overdue_scheduled = length (find_overdue_scheduled now 10 s.jobs);
}
