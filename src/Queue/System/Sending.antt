-- ===== src/Queue/System/Sending.antt =====
-- A run of the dispatcher sends every SCHEDULED job whose score has passed.
use job_queue_event_processi.Prelude.{
  ℕ, ◌≤◌, ◌≡◌, ◌∙◌, ◌==◌, ==_iff, refl, sym, subst, ◌||◌, Bool, true, false, Bool-cases,
  Option-cases, inl, inr, some, List, [], ◌∷◌, ◌++◌, arith,
}
use job_queue_event_processi.Queue.Job.{scheduled, queued, is, Job}
use job_queue_event_processi.Queue.Repository.{find_by_id, find_by_id-save, find_by_id-id, time_of}
use job_queue_event_processi.Queue.State.{
  Backend, Message, id_text, garbage, send_job, remove_job, get_ready_jobs,
}
use job_queue_event_processi.Queue.State.Ready.{has, ready-get_key}
use job_queue_event_processi.Queue.Dispatcher.{dispatch_job, dispatch_all, dispatch}
use job_queue_event_processi.Queue.System.Watching.{IsWaiting}

-- A message with an id is on the topic.
abbrev pub has_message : ℕ → List Message → Bool
has_message n [] = false
has_message n (id_text m ∷ ms) = m == n || has_message n ms
has_message n (garbage t ∷ ms) = has_message n ms

has_message-append :
    (n m : ℕ) (ms : List Message)
    → has_message n (ms ++ id_text m ∷ []) ≡ (has_message n ms || m == n)
has_message-append n m [] = ground arith
has_message-append n m (id_text k ∷ ms) = ground (arith, has_message-append n m ms)
has_message-append n m (garbage t ∷ ms) = has_message-append n m ms

abbrev as_queued : Job → Job
as_queued job = record job { status = queued }

-- A job is QUEUED and its message is on the topic.
abbrev pub IsSent : ℕ → Job → Backend → Type 0
IsSent n job s = (find_by_id n s.jobs ≡ some (as_queued job)) × (has_message n s.topic ≡ true)

-- The dispatch of another job.
dispatch_job-row :
    (m n : ℕ) (s : Backend)
    → (m == n) ≡ false
    → find_by_id n (dispatch_job m s).jobs ≡ find_by_id n s.jobs
unfolding dispatch_job send_job remove_job
dispatch_job-row m n s other = elim (Option-cases (find_by_id m s.jobs)) [
  | inl missing ↦ rw (dispatch_job, missing) refl
  | inr (job, found) ↦ elim (Bool-cases (is job.status scheduled)) [
    | inr away ↦ rw (dispatch_job, found, away) refl
    | inl ready ↦
        rw (dispatch_job, found, ready)
          (find_by_id-save n (as_queued job) s.jobs
            ∙ rw (find_by_id-id m s.jobs job found, other) refl)
  ]
]

dispatch_job-topic :
    (m n : ℕ) (s : Backend)
    → has_message n s.topic ≡ true
    → has_message n (dispatch_job m s).topic ≡ true
unfolding dispatch_job send_job remove_job
dispatch_job-topic m n s h = elim (Option-cases (find_by_id m s.jobs)) [
  | inl missing ↦ rw (dispatch_job, missing) h
  | inr (job, found) ↦ elim (Bool-cases (is job.status scheduled)) [
    | inr away ↦ rw (dispatch_job, found, away) h
    | inl ready ↦
        rw (dispatch_job, found, ready) (has_message-append n m s.topic ∙ ground (arith, h))
  ]
]

-- The dispatch of a job that is already QUEUED only removes its score.
dispatch_job-again :
    (n : ℕ) (job : Job) (s : Backend)
    → find_by_id n s.jobs ≡ some (as_queued job)
    → find_by_id n (dispatch_job n s).jobs ≡ some (as_queued job)
unfolding dispatch_job remove_job
dispatch_job-again n job s row = rw (dispatch_job, row) row

dispatch_all-IsSent :
    (ns : List ℕ) (n : ℕ) (job : Job) (s : Backend)
    → IsSent n job s
    → IsSent n job (dispatch_all ns s)
unfolding dispatch_all
dispatch_all-IsSent [] n job s h = h
dispatch_all-IsSent (m ∷ ns) n job s (row, sent) = dispatch_all-IsSent ns n job (dispatch_job m s) (
  elim (Bool-cases (m == n)) [
    | inr other ↦ dispatch_job-row m n s other ∙ row
    | inl same ↦
        subst (λ k. find_by_id n (dispatch_job k s).jobs ≡ some (as_queued job))
          (sym ((==_iff m n).0 same)) (dispatch_job-again n job s row)
  ],
  dispatch_job-topic m n s sent,
)

dispatch_job-sends :
    (n : ℕ) (job : Job) (s : Backend)
    → find_by_id n s.jobs ≡ some job
    → job.status ≡ scheduled
    → IsSent n job (dispatch_job n s)
unfolding dispatch_job send_job remove_job
dispatch_job-sends n job s row ready =
    rw (dispatch_job, row, ready)
      (
        find_by_id-save n (as_queued job) s.jobs
            ∙ rw (find_by_id-id n s.jobs job row) (ground arith),
        has_message-append n n s.topic ∙ ground arith,
      )

dispatch_all-sends :
    (ns : List ℕ) (n : ℕ) (job : Job) (s : Backend)
    → find_by_id n s.jobs ≡ some job
    → job.status ≡ scheduled
    → has n ns ≡ true
    → IsSent n job (dispatch_all ns s)
unfolding dispatch_all
dispatch_all-sends [] n job s row ready due = absurd (ground arith)
dispatch_all-sends (m ∷ ns) n job s row ready due = elim (Bool-cases (m == n)) [
  | inl same ↦ dispatch_all-IsSent ns n job (dispatch_job m s) (
      subst (λ k. IsSent n job (dispatch_job k s)) (sym ((==_iff m n).0 same))
        (dispatch_job-sends n job s row ready))
  | inr other ↦
      dispatch_all-sends ns n job (dispatch_job m s) (dispatch_job-row m n s other ∙ row) ready
        (ground arith)
]

pub dispatch_sends :
    (now n : ℕ) (job : Job) (s : Backend)
    → IsWaiting n job s
    → job.status ≡ scheduled
    → time_of job.schedule_time ≤ now
    → IsSent n job (dispatch now s)
unfolding dispatch
dispatch_sends now n job s (row, key) ready due =
    dispatch_all-sends (get_ready_jobs now s) n job s row ready
      (ready-get_key n (time_of job.schedule_time) now s key due)
