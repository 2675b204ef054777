-- ===== src/Queue/Admin/Requeue.antt =====
-- The requeueing of one job by hand.
use job_queue_event_processi.Prelude.{
  ℕ, ◌≡◌, ◌⊎◌, inl, inr, refl, true, false, Bool-cases, Option-cases, none, some, [], ◌∷◌, ◌++◌,
  arith,
}
use job_queue_event_processi.Queue.Job.{queued, completed, cancelled, is, is-eq, Job}
use job_queue_event_processi.Queue.Repository.{find_by_id, find_by_id-save, find_by_id-id}
use job_queue_event_processi.Queue.State.{Backend, id_text, send_job}
use job_queue_event_processi.Queue.Admin.{requeue_job}

-- The job of an id is there and is neither COMPLETED nor CANCELLED.
pub record IsRequeueable (n : ℕ) (s : Backend) (job : Job) : Type 0 where
  found : find_by_id n s.jobs ≡ some job
  not_completed : is job.status completed ≡ false
  not_cancelled : is job.status cancelled ≡ false

-- What a successful requeueing does: the job is QUEUED and is sent once more.
pub record Requeued (n : ℕ) (job : Job) (s s' : Backend) : Type 0 where
  found : find_by_id n s'.jobs ≡ some (record job { status = queued })
  topic : s'.topic ≡ s.topic ++ id_text n ∷ []
  delay_queue : s'.delay_queue ≡ s.delay_queue

-- Why a requeueing is refused.
pub record Refused (n : ℕ) (s : Backend) : Type 0 where
  why :
      (find_by_id n s.jobs ≡ none)
      ⊎ ((job : Job) × (find_by_id n s.jobs ≡ some job)
          × ((job.status ≡ completed) ⊎ (job.status ≡ cancelled)))

-- `requeueJob` either succeeds, for a job that is there and is neither COMPLETED nor CANCELLED,
-- and then the job is QUEUED, its id is sent once and the delay queue is kept; or it fails, for a
-- missing, COMPLETED or CANCELLED job, and changes nothing.
pub requeue_job_decides :
    (n : ℕ) (s : Backend)
    → let r = requeue_job n s in
      ((r.0.success ≡ true) × (job : Job) × IsRequeueable n s job × Requeued n job s r.1)
      ⊎ ((r.0.success ≡ false) × (r.1 ≡ s) × Refused n s)
unfolding send_job requeue_job
requeue_job_decides n s = elim (Option-cases (find_by_id n s.jobs)) [
  | inl missing ↦ rw (requeue_job, missing) (inr (refl, refl, record { why = inl missing }))
  | inr (job, found) ↦ elim (Bool-cases (is job.status completed)) [
    | inl done ↦
        rw (requeue_job, found, done)
          (inr
            (refl, refl, record { why = inr (job, found, inl (is-eq job.status completed done)) }))
    | inr live ↦ elim (Bool-cases (is job.status cancelled)) [
      | inl gone ↦
          rw (requeue_job, found, live, gone)
            (inr (
              refl,
              refl,
              record { why = inr (job, found, inr (is-eq job.status cancelled gone)) },
            ))
      | inr kept ↦
          rw (requeue_job, found, live, kept)
            (inl (
              refl,
              job,
              record { found = found; not_completed = live; not_cancelled = kept },
              record {
                found = ground (
                  arith,
                  find_by_id-save n (record job { status = queued }) s.jobs,
                  find_by_id-id n s.jobs job found,
                );
                topic = refl;
                delay_queue = refl;
              },
            ))
    ]
  ]
]
