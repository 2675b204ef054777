-- ===== src/Queue/System/Steps.antt =====
-- The watcher, its recovery and the reconciliation keep the rows.
use job_queue_event_processi.Prelude.{
  ℕ, ◌+◌, ◌-◌, ◌≡◌, refl, sym, Bool, Bool-cases, inl, inr, ltb, Option, none, some, List, [], ◌∷◌,
  take, subst,
}
use job_queue_event_processi.Queue.Job.{pending, scheduled, retry, is, is-eq, Job}
use job_queue_event_processi.Queue.Repository.{
  save, select, order_by, find_window, find_retry_window, find_pending_or_scheduled_in_range,
  find_retry_in_range, find_retry_due, find_overdue_scheduled,
}
use job_queue_event_processi.Queue.State.{Backend, publish, schedule_job}
use job_queue_event_processi.Queue.Watcher.{
  watch_pending, watch_retry, recover_scheduled, recover_retry, recover_missed_jobs, heartbeat,
  watch, gap_incident,
}
use job_queue_event_processi.Queue.Admin.{reinsert_overdue, requeue_due, reconcile_redis}
use job_queue_event_processi.Queue.Consumer.Moves.{publish-jobs}
use job_queue_event_processi.Queue.System.Life.{by_watcher}
use job_queue_event_processi.Queue.System.Table.{
  IsUnique, IsUnique-rows, IsRow, IsRow-IsCopy, IsCopy, AllJobs, AllJobs-imp, AllJobs-select,
  AllJobs-take, AllJobs-order_by,
}
use job_queue_event_processi.Queue.System.Rows.{
  Keeps, Keeps-refl, Keeps-trans, as_scheduled, schedule-Keeps, schedule-IsCopy,
}

abbrev pub Copies : List Job → Backend → Type 0
Copies js s = AllJobs (IsCopy s.jobs) js

-- The rows of a table are copies of themselves.
table-Copies : (s : Backend) → IsUnique s.jobs → Copies s.jobs s
table-Copies s u =
    AllJobs-imp (IsRow s.jobs) (IsCopy s.jobs) s.jobs (IsRow-IsCopy s.jobs) (IsUnique-rows s.jobs u)

-- A loop's step that saves one job as SCHEDULED.
pub scheduled-Copies :
    (job : Job) (js : List Job) (s : Backend)
    → IsCopy s.jobs job
    → Copies js s
    → AllJobs (IsCopy (save (as_scheduled job) s.jobs)) js
scheduled-Copies job js s c cs =
    AllJobs-imp (IsCopy s.jobs) (IsCopy (save (as_scheduled job) s.jobs)) js
      (λ k. schedule-IsCopy job k s.jobs c) cs

pub watch_pending-Keeps :
    (js : List Job) (s : Backend) → Copies js s → Keeps by_watcher s.jobs (watch_pending js s).jobs
unfolding watch_pending schedule_job
watch_pending-Keeps [] s h = Keeps-refl s.jobs
watch_pending-Keeps (job ∷ js) s (c, cs) = elim (Bool-cases (is job.status pending)) [
  | inr other ↦ rw (watch_pending, other) (watch_pending-Keeps js s cs)
  | inl from ↦
      rw (watch_pending, from)
        (Keeps-trans (schedule-Keeps job s.jobs c (inl (is-eq job.status pending from)))
          (watch_pending-Keeps js _ (scheduled-Copies job js s c cs)))
]

watch_retry-Keeps :
    (js : List Job) (s : Backend) → Copies js s → Keeps by_watcher s.jobs (watch_retry js s).jobs
unfolding watch_retry schedule_job
watch_retry-Keeps [] s h = Keeps-refl s.jobs
watch_retry-Keeps (job ∷ js) s (c, cs) = elim (Bool-cases (is job.status retry)) [
  | inr other ↦ rw (watch_retry, other) (watch_retry-Keeps js s cs)
  | inl from ↦
      rw (watch_retry, from)
        (Keeps-trans (schedule-Keeps job s.jobs c (inr (is-eq job.status retry from)))
          (watch_retry-Keeps js _ (scheduled-Copies job js s c cs)))
]

recover_scheduled-Keeps :
    (js : List Job) (count : ℕ) (s : Backend)
    → Copies js s
    → Keeps by_watcher s.jobs (recover_scheduled js count s).1.jobs
unfolding recover_scheduled schedule_job
recover_scheduled-Keeps [] count s h = Keeps-refl s.jobs
recover_scheduled-Keeps (job ∷ js) count s (c, cs) = elim (Bool-cases (is job.status pending)) [
  | inl from ↦
      rw (recover_scheduled, from)
        (Keeps-trans (schedule-Keeps job s.jobs c (inl (is-eq job.status pending from)))
          (recover_scheduled-Keeps js _ _ (scheduled-Copies job js s c cs)))
  | inr other ↦
      rw (recover_scheduled, other)
        (elim (Bool-cases (is job.status scheduled)) [
          | inl waits ↦ rw (recover_scheduled, waits) (recover_scheduled-Keeps js _ _ cs)
          | inr away ↦ rw (recover_scheduled, away) (recover_scheduled-Keeps js _ _ cs)
        ])
]

recover_retry-Keeps :
    (js : List Job) (count : ℕ) (s : Backend)
    → Copies js s
    → Keeps by_watcher s.jobs (recover_retry js count s).1.jobs
unfolding recover_retry schedule_job
recover_retry-Keeps [] count s h = Keeps-refl s.jobs
recover_retry-Keeps (job ∷ js) count s (c, cs) = elim (Bool-cases (is job.status retry)) [
  | inr other ↦ rw (recover_retry, other) (recover_retry-Keeps js _ _ cs)
  | inl from ↦
      rw (recover_retry, from)
        (Keeps-trans (schedule-Keeps job s.jobs c (inr (is-eq job.status retry from)))
          (recover_retry-Keeps js _ _ (scheduled-Copies job js s c cs)))
]

-- What a query returns are copies of rows.
select-Copies :
    (n : ℕ) (p : Job → Bool) (s : Backend) → IsUnique s.jobs → Copies (take n (select p s.jobs)) s
select-Copies n p s u =
    AllJobs-take (IsCopy s.jobs) n _ (AllJobs-select (IsCopy s.jobs) p s.jobs (table-Copies s u))

pub order_by-Copies :
    (n : ℕ) (key : Job → ℕ) (p : Job → Bool) (s : Backend)
    → IsUnique s.jobs
    → Copies (take n (order_by key (select p s.jobs))) s
order_by-Copies n key p s u = AllJobs-take (IsCopy s.jobs) n _ (
    AllJobs-order_by (IsCopy s.jobs) key _
      (AllJobs-select (IsCopy s.jobs) p s.jobs (table-Copies s u)))

pub recover_missed_jobs-Keeps :
    (now : ℕ) (s : Backend)
    → IsUnique s.jobs
    → Keeps by_watcher s.jobs (recover_missed_jobs now s).1.jobs
unfolding recover_missed_jobs find_pending_or_scheduled_in_range find_retry_in_range
recover_missed_jobs-Keeps now s u =
    let missed = find_pending_or_scheduled_in_range (now - 60000) now 500 s.jobs in
    let first = recover_scheduled-Keeps missed 0 s (select-Copies 500 _ s u) in
    let r = recover_scheduled missed 0 s in
    Keeps-trans first (recover_retry-Keeps _ r.0 r.1 (select-Copies 500 _ r.1 (first.unique u)))

heartbeat-Keeps :
    (now : ℕ) (last : Option ℕ) (s : Backend)
    → IsUnique s.jobs
    → Keeps by_watcher s.jobs (heartbeat now last s).jobs
unfolding heartbeat
heartbeat-Keeps now none s u = Keeps-refl s.jobs
heartbeat-Keeps now (some last) s u = elim (Bool-cases (ltb 25000 (now - last))) [
  | inr regular ↦ rw regular (Keeps-refl s.jobs)
  | inl late ↦
      let told = publish (gap_incident (now - last)) s in
      let same = publish-jobs (gap_incident (now - last)) s in
      rw late (
        subst (λ js. Keeps by_watcher js (recover_missed_jobs now told).1.jobs) same
          (recover_missed_jobs-Keeps now told (subst IsUnique (sym same) u)))
]

pub watch-Keeps :
    (now : ℕ) (s : Backend) → IsUnique s.jobs → Keeps by_watcher s.jobs (watch now s).jobs
unfolding watch find_window find_retry_window
watch-Keeps now s u =
    let s₁ = heartbeat now s.last_run (record s { last_run = some now }) in
    let beat = heartbeat-Keeps now s.last_run (record s { last_run = some now }) u in
    let s₂ = watch_pending (find_window 0 (now + 20000) 200 s₁.jobs) s₁ in
    let first = watch_pending-Keeps _ s₁ (order_by-Copies 200 _ _ s₁ (beat.unique u)) in
    Keeps-trans beat (
      Keeps-trans first
        (watch_retry-Keeps _ s₂ (order_by-Copies 200 _ _ s₂ (first.unique (beat.unique u)))))

reinsert_overdue-jobs :
    (js : List Job) (count : ℕ) (s : Backend) → (reinsert_overdue js count s).1.jobs ≡ s.jobs
unfolding reinsert_overdue schedule_job
reinsert_overdue-jobs [] count s = refl
reinsert_overdue-jobs (job ∷ js) count s = elim (Bool-cases (is job.status scheduled)) [
  | inl waits ↦ rw (reinsert_overdue, waits) (reinsert_overdue-jobs js _ _)
  | inr away ↦ rw (reinsert_overdue, away) (reinsert_overdue-jobs js _ _)
]

requeue_due-Keeps :
    (js : List Job) (count : ℕ) (s : Backend)
    → Copies js s
    → Keeps by_watcher s.jobs (requeue_due js count s).1.jobs
unfolding requeue_due schedule_job
requeue_due-Keeps [] count s h = Keeps-refl s.jobs
requeue_due-Keeps (job ∷ js) count s (c, cs) = elim (Bool-cases (is job.status retry)) [
  | inr other ↦ rw (requeue_due, other) (requeue_due-Keeps js _ _ cs)
  | inl from ↦
      rw (requeue_due, from)
        (Keeps-trans (schedule-Keeps job s.jobs c (inr (is-eq job.status retry from)))
          (requeue_due-Keeps js _ _ (scheduled-Copies job js s c cs)))
]

pub reconcile_redis-Keeps :
    (now : ℕ) (s : Backend)
    → IsUnique s.jobs
    → Keeps by_watcher s.jobs (reconcile_redis now s).1.jobs
unfolding reconcile_redis find_retry_due
reconcile_redis-Keeps now s u =
    let overdue = find_overdue_scheduled now 500 s.jobs in
    let r = reinsert_overdue overdue 0 s in
    let same = reinsert_overdue-jobs overdue 0 s in
    subst (λ js. Keeps by_watcher js (reconcile_redis now s).1.jobs) same
      (requeue_due-Keeps _ r.0 r.1 (order_by-Copies 500 _ _ r.1 (subst IsUnique (sym same) u)))
