-- ===== src/Queue/Dispatcher/Delivery.antt =====
-- What a run of `dispatch` leaves behind.
use job_queue_event_processi.Prelude.{
  ℕ, ◌≡◌, ◌⊎◌, inl, inr, refl, false, Bool-cases, Option-cases, none, some, [], ◌∷◌, ◌++◌, arith,
}
use job_queue_event_processi.Queue.Job.{scheduled, queued, is, is-eq, Job}
use job_queue_event_processi.Queue.Repository.{find_by_id, find_by_id-save, find_by_id-id}
use job_queue_event_processi.Queue.State.{Backend, id_text, send_job, remove_job, get_key}
use job_queue_event_processi.Queue.State.Keys.{get_key-delete_key}
use job_queue_event_processi.Queue.Dispatcher.{dispatch_job}

-- A job is SCHEDULED in a state.
pub record IsScheduled (n : ℕ) (s : Backend) (job : Job) : Type 0 where
  found : find_by_id n s.jobs ≡ some job
  status : job.status ≡ scheduled

-- A job is missing or not SCHEDULED in a state.
pub record IsNotScheduled (n : ℕ) (s : Backend) : Type 0 where
  why :
      (find_by_id n s.jobs ≡ none)
      ⊎ ((job : Job) × (find_by_id n s.jobs ≡ some job) × (is job.status scheduled ≡ false))

-- One member of the delay queue leaves it. A SCHEDULED job becomes QUEUED and its id is sent once;
-- for a job that is missing or in another status neither the table nor the topic changes.
pub dispatch_job_decides :
    (n : ℕ) (s : Backend)
    → let s' = dispatch_job n s in
      (get_key n s'.delay_queue ≡ none)
      × (((job : Job) × IsScheduled n s job
            × (find_by_id n s'.jobs ≡ some (record job { status = queued }))
            × (s'.topic ≡ s.topic ++ id_text n ∷ []))
          ⊎ (IsNotScheduled n s × (s'.jobs ≡ s.jobs) × (s'.topic ≡ s.topic)))
unfolding dispatch_job send_job remove_job
dispatch_job_decides n s = elim (Option-cases (find_by_id n s.jobs)) [
  | inl missing ↦
      rw (dispatch_job, missing)
        (
          ground (arith, get_key-delete_key n n s.delay_queue),
          inr (record { why = inl missing }, refl, refl),
        )
  | inr (job, found) ↦ elim (Bool-cases (is job.status scheduled)) [
    | inl ready ↦
        rw (dispatch_job, found, ready)
          (
            ground (arith, get_key-delete_key n n s.delay_queue),
            inl (
              job,
              record { found = found; status = is-eq job.status scheduled ready },
              ground (
                arith,
                find_by_id-save n (record job { status = queued }) s.jobs,
                find_by_id-id n s.jobs job found,
              ),
              refl,
            ),
          )
    | inr other_status ↦
        rw (dispatch_job, found, other_status)
          (
            ground (arith, get_key-delete_key n n s.delay_queue),
            inr (record { why = inr (job, found, other_status) }, refl, refl),
          )
  ]
]
