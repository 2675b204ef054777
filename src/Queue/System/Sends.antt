-- ===== src/Queue/System/Sends.antt =====
-- The dispatcher and the requeueing by hand keep the rows.
use job_queue_event_processi.Prelude.{
  ℕ, ◌≡◌, ◌∙◌, refl, ap, Bool-cases, Option-cases, inl, inr, some, List, [], ◌∷◌,
}
use job_queue_event_processi.Queue.Job.{scheduled, queued, completed, cancelled, is, is-eq, Job}
use job_queue_event_processi.Queue.Repository.{find_by_id, find_by_id-id, save}
use job_queue_event_processi.Queue.State.{Backend, send_job, remove_job, get_ready_jobs}
use job_queue_event_processi.Queue.Dispatcher.{dispatch_job, dispatch_all, dispatch}
use job_queue_event_processi.Queue.Admin.{requeue_job}
use job_queue_event_processi.Queue.System.Life.{
  Kind, by_dispatcher, by_hand, view, Life, once, sending, requeueing,
}
use job_queue_event_processi.Queue.System.Rows.{Keeps, Keeps-refl, Keeps-trans, save-Keeps}

-- The save under an id that was looked up.
found-Keeps :
    {k : Kind} (n : ℕ) (job row : Job) (js : List Job)
    → find_by_id n js ≡ some job
    → row.id ≡ job.id
    → Life k (view job) (view row)
    → row.type ≡ job.type
    → Keeps k js (save row js)
found-Keeps n job row js found same life kind =
    save-Keeps job row js (ap (λ m. find_by_id m js) (same ∙ find_by_id-id n js job found) ∙ found)
      life kind

dispatch_job-Keeps : (n : ℕ) (s : Backend) → Keeps by_dispatcher s.jobs (dispatch_job n s).jobs
unfolding dispatch_job send_job remove_job
dispatch_job-Keeps n s = elim (Option-cases (find_by_id n s.jobs)) [
  | inl missing ↦ rw (dispatch_job, missing) (Keeps-refl s.jobs)
  | inr (job, found) ↦ elim (Bool-cases (is job.status scheduled)) [
    | inl ready ↦
        rw (dispatch_job, found, ready)
          (found-Keeps n job (record job { status = queued }) s.jobs found refl
            (once (sending (is-eq job.status scheduled ready) refl refl)) refl)
    | inr other ↦ rw (dispatch_job, found, other) (Keeps-refl s.jobs)
  ]
]

dispatch_all-Keeps :
    (ns : List ℕ) (s : Backend) → Keeps by_dispatcher s.jobs (dispatch_all ns s).jobs
unfolding dispatch_all
dispatch_all-Keeps [] s = Keeps-refl s.jobs
dispatch_all-Keeps (n ∷ ns) s =
    Keeps-trans (dispatch_job-Keeps n s) (dispatch_all-Keeps ns (dispatch_job n s))

pub dispatch-Keeps : (now : ℕ) (s : Backend) → Keeps by_dispatcher s.jobs (dispatch now s).jobs
unfolding dispatch
dispatch-Keeps now s = dispatch_all-Keeps (get_ready_jobs now s) s

pub requeue_job-Keeps : (n : ℕ) (s : Backend) → Keeps by_hand s.jobs (requeue_job n s).1.jobs
unfolding requeue_job send_job
requeue_job-Keeps n s = elim (Option-cases (find_by_id n s.jobs)) [
  | inl missing ↦ rw (requeue_job, missing) (Keeps-refl s.jobs)
  | inr (job, found) ↦ elim (Bool-cases (is job.status completed)) [
    | inl done ↦ rw (requeue_job, found, done) (Keeps-refl s.jobs)
    | inr live ↦ elim (Bool-cases (is job.status cancelled)) [
      | inl gone ↦ rw (requeue_job, found, live, gone) (Keeps-refl s.jobs)
      | inr kept ↦
          rw (requeue_job, found, live, kept)
            (found-Keeps n job (record job { status = queued }) s.jobs found refl
              (once (requeueing live kept refl refl)) refl)
    ]
  ]
]
