-- ===== src/Queue/Watcher.antt =====
-- service/WatcherService.java: `watch`, `triggerRecovery` and `recoverMissedJobs`.
pub mod Recovery
use job_queue_event_processi.Prelude.{
  ℕ, suc, ◌+◌, ◌-◌, ltb, not, ◌&&◌, if◌then◌else◌, Option, none, some, List, [], ◌∷◌,
}
use job_queue_event_processi.Queue.Job.{pending, scheduled, retry, is, Job}
use job_queue_event_processi.Queue.Repository.{
  save, time_of, find_window, find_retry_window, find_pending_or_scheduled_in_range,
  find_retry_in_range,
}
use job_queue_event_processi.Queue.State.{Backend, Incident, publish, schedule_job}

-- `job.setStatus(SCHEDULED); repo.save(job)`.
abbrev pub save_scheduled : Job → Backend → Backend
save_scheduled job s = record s { jobs = save (record job { status = scheduled }) s.jobs }

-- The loops of `watch`. The queries return no job without the time that is read here.
unfoldable pub watch_pending : List Job → Backend → Backend
watch_pending [] s = s
watch_pending (job ∷ js) s = watch_pending js (
    if not (is job.status pending)
    then s
    else schedule_job job.id (time_of job.schedule_time) (save_scheduled job s))

unfoldable pub watch_retry : List Job → Backend → Backend
watch_retry [] s = s
watch_retry (job ∷ js) s = watch_retry js (
    if not (is job.status retry)
    then s
    else schedule_job job.id (time_of job.next_retry_time) (save_scheduled job s))

-- The loops of `recoverMissedJobs`, which count the jobs that they put into the delay queue.
unfoldable pub recover_scheduled : List Job → ℕ → Backend → ℕ × Backend
recover_scheduled [] count s = (count, s)
recover_scheduled (job ∷ js) count s =
    let due = not (not (is job.status pending) && not (is job.status scheduled)) in
    let s₁ = schedule_job job.id (time_of job.schedule_time) s in
    recover_scheduled js (if due then suc count else count)
      (if due then (if is job.status pending then save_scheduled job s₁ else s₁) else s)

unfoldable pub recover_retry : List Job → ℕ → Backend → ℕ × Backend
recover_retry [] count s = (count, s)
recover_retry (job ∷ js) count s =
    let due = is job.status retry in
    recover_retry js (if due then suc count else count)
      (if due then save_scheduled job (schedule_job job.id (time_of job.next_retry_time) s) else s)

unfoldable pub recover_missed_jobs : (now : ℕ) → Backend → ℕ × Backend
recover_missed_jobs now s =
    let first =
      recover_scheduled (find_pending_or_scheduled_in_range (now - 60000) now 500 s.jobs) 0 s in
    recover_retry (find_retry_in_range (now - 60000) now 500 first.1.jobs) first.0 first.1

unfoldable pub trigger_recovery : (now : ℕ) → Backend → ℕ × Backend
trigger_recovery now s = recover_missed_jobs now s

abbrev pub gap_incident : ℕ → Incident
gap_incident gap = record {
  type = "WATCHER_GAP";
  severity = "HIGH";
  title = "Watcher heartbeat gap detected";
  job_id = none;
  job_type = none;
  evidence = "Gap exceeded 25s threshold";
  attributes = ("gapMs", gap) ∷ [];
}

-- The heartbeat: a gap of more than 25 s since the last run is reported and recovered from.
unfoldable pub heartbeat : (now : ℕ) → Option ℕ → Backend → Backend
heartbeat now none s = s
heartbeat now (some last) s =
    if ltb 25000 (now - last)
    then (recover_missed_jobs now (publish (gap_incident (now - last)) s)).1
    else s

unfoldable pub watch : (now : ℕ) → Backend → Backend
watch now s =
    let s₁ = heartbeat now s.last_run (record s { last_run = some now }) in
    let s₂ = watch_pending (find_window 0 (now + 20000) 200 s₁.jobs) s₁ in
    watch_retry (find_retry_window 0 (now + 20000) 200 s₂.jobs) s₂
