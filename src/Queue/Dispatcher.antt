-- ===== src/Queue/Dispatcher.antt =====
-- service/RedisDispatcherService.java: `dispatch`.
pub mod Delivery
pub mod Drain
use job_queue_event_processi.Prelude.{
  ℕ, Bool, true, false, not, if◌then◌else◌, Option, none, some, List, [], ◌∷◌,
}
use job_queue_event_processi.Queue.Job.{JobStatus, scheduled, queued, is, Job}
use job_queue_event_processi.Queue.Repository.{find_by_id, save}
use job_queue_event_processi.Queue.State.{Backend, id_text, send_job, get_ready_jobs, remove_job}

-- The body of the loop, for one member of the delay queue. A job that is missing or not SCHEDULED
-- is only removed.
unfoldable pub dispatch_job : ℕ → Backend → Backend
dispatch_job n s = elim (find_by_id n s.jobs) [
  | none ↦ remove_job n s
  | some job ↦
      if not (is job.status scheduled)
      then remove_job n s
      else remove_job n
          (send_job (id_text n) (record s { jobs = save (record job { status = queued }) s.jobs }))
]

unfoldable pub dispatch_all : List ℕ → Backend → Backend
dispatch_all [] s = s
dispatch_all (n ∷ ns) s = dispatch_all ns (dispatch_job n s)

unfoldable pub dispatch : (now : ℕ) → Backend → Backend
dispatch now s = dispatch_all (get_ready_jobs now s) s
