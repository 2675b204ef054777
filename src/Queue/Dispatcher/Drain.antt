-- ===== src/Queue/Dispatcher/Drain.antt =====
-- The delay queue after a run of `dispatch`.
use job_queue_event_processi.Prelude.{
  ℕ, ◌≤◌, ◌≡◌, ◌∙◌, refl, ap, inl, inr, if◌then◌else◌, Bool-cases, Option-cases, none, some, List,
  [], ◌∷◌, arith,
}
use job_queue_event_processi.Queue.Job.{scheduled, is}
use job_queue_event_processi.Queue.Repository.{find_by_id}
use job_queue_event_processi.Queue.State.{
  Backend, send_job, remove_job, delete_key, get_key, get_ready_jobs,
}
use job_queue_event_processi.Queue.State.Ready.{has, ready-get_key}
use job_queue_event_processi.Queue.Dispatcher.{dispatch_job, dispatch_all, dispatch}
use job_queue_event_processi.Queue.State.Keys.{get_key-delete_key}

dispatch_job-delay_queue :
    (n : ℕ) (s : Backend) → (dispatch_job n s).delay_queue ≡ delete_key n s.delay_queue
unfolding dispatch_job send_job remove_job
dispatch_job-delay_queue n s = elim (Option-cases (find_by_id n s.jobs)) [
  | inl missing ↦ rw (dispatch_job, missing) refl
  | inr (job, found) ↦ elim (Bool-cases (is job.status scheduled)) [
    | inl ready ↦ rw (dispatch_job, found, ready) refl
    | inr other ↦ rw (dispatch_job, found, other) refl
  ]
]

dispatch_all-delay_queue :
    (m : ℕ) (ns : List ℕ) (s : Backend)
    → get_key m (dispatch_all ns s).delay_queue
      ≡ (if has m ns then none else get_key m s.delay_queue)
unfolding dispatch_all
dispatch_all-delay_queue m [] s = refl
dispatch_all-delay_queue m (n ∷ ns) s =
    let rest = dispatch_all-delay_queue m ns (dispatch_job n s) in
    let removed = get_key-delete_key n m s.delay_queue in
    let same = dispatch_job-delay_queue n s in ground (arith, rest, removed, ap (get_key m) same)

-- A run of `dispatch` removes an id whose score is not later than `now` from the delay queue, and
-- of all ids exactly those that are ready; every other id keeps its score.
pub dispatch_drains :
    (now m t : ℕ) (s : Backend)
    → get_key m s.delay_queue ≡ some t
    → t ≤ now
    → (get_key m (dispatch now s).delay_queue ≡ none)
      × ((k : ℕ)
          → get_key k (dispatch now s).delay_queue
            ≡ (if has k (get_ready_jobs now s) then none else get_key k s.delay_queue))
unfolding dispatch
dispatch_drains now m t s e h =
    let all = λ (k : ℕ). dispatch_all-delay_queue k (get_ready_jobs now s) s in
    (all m ∙ ground (arith, ready-get_key m t now s e h), all)
