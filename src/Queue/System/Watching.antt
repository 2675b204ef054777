-- ===== src/Queue/System/Watching.antt =====
-- Lists of jobs that the watcher's queries return, and a job that already waits in the delay queue.
pub mod Reach
use job_queue_event_processi.Prelude.{
  ℕ, zero, suc, ◌⊎◌, ◌+◌, ◌-◌, ◌≤◌, ◌≡◌, ◌∙◌, ◌==◌, ==_iff, refl, sym, ap, subst, leb, ltb, not,
  ◌&&◌, ◌||◌, Bool, true, false, Bool-cases, inl, inr, if◌then◌else◌, Option, none, some, List, [],
  ◌∷◌, take, length, arith,
}
use job_queue_event_processi.Queue.Job.{JobStatus, pending, scheduled, retry, is, is-eq, Job}
use job_queue_event_processi.Queue.Repository.{
  find_by_id, find_by_id-save, find_by_id-id, save, select, insert_by, order_by, time_of, between,
  count_by_status, find_window, find_retry_window,
}
use job_queue_event_processi.Queue.State.{Backend, schedule_job, get_key, put_key}
use job_queue_event_processi.Queue.State.Keys.{get_key-put_key}
use job_queue_event_processi.Queue.Watcher.{watch_pending, watch_retry, heartbeat, watch}
use job_queue_event_processi.Queue.System.Table.{
  IsUnique, IsUnique-rows, IsRow, IsCopy, AllJobs, AllJobs-imp, AllJobs-select, AllJobs-take,
  AllJobs-order_by,
}
use job_queue_event_processi.Queue.System.Rows.{as_scheduled, schedule-IsCopy, some_inj}
use job_queue_event_processi.Queue.System.Steps.{
  Copies, scheduled-Copies, order_by-Copies, watch_pending-Keeps,
}

-- A job with an id is in a list.
abbrev has_id : ℕ → List Job → Bool
has_id n [] = false
has_id n (j ∷ js) = j.id == n || has_id n js

has_id-select :
    (p : Job → Bool) (n : ℕ) (job : Job) (js : List Job)
    → find_by_id n js ≡ some job
    → p job ≡ true
    → has_id n (select p js) ≡ true
unfolding find_by_id select
has_id-select p n job [] e h = ground arith
has_id-select p n job (k ∷ ks) e h = elim (Bool-cases (k.id == n)) [
  | inl same ↦
      let first : some k ≡ some job = ground arith in
      let hit = subst (λ j. p j ≡ true) (sym (some_inj k job (some k) refl first)) h in
      rw (select, hit) (ground arith)
  | inr other ↦
      let e' : find_by_id n ks ≡ some job = ground arith in
      ground (arith, has_id-select p n job ks e' h)
]

has_id-insert_by :
    (key : Job → ℕ) (n : ℕ) (j : Job) (js : List Job)
    → has_id n (insert_by key j js) ≡ (j.id == n || has_id n js)
unfolding insert_by
has_id-insert_by key n j [] = refl
has_id-insert_by key n j (k ∷ ks) = ground (arith, has_id-insert_by key n j ks)

has_id-order_by : (key : Job → ℕ) (n : ℕ) (js : List Job) → has_id n (order_by key js) ≡ has_id n js
unfolding order_by
has_id-order_by key n [] = refl
has_id-order_by key n (j ∷ js) =
    has_id-insert_by key n j (order_by key js) ∙ ground (arith, has_id-order_by key n js)

length-insert_by :
    (key : Job → ℕ) (j : Job) (js : List Job) → length (insert_by key j js) ≡ suc (length js)
unfolding insert_by
length-insert_by key j [] = refl
length-insert_by key j (k ∷ ks) = ground (arith, length-insert_by key j ks)

length-order_by : (key : Job → ℕ) (js : List Job) → length (order_by key js) ≡ length js
unfolding order_by
length-order_by key [] = refl
length-order_by key (j ∷ js) =
    length-insert_by key j (order_by key js) ∙ ap suc (length-order_by key js)

take_all : (n : ℕ) (js : List Job) → length js ≤ n → take n js ≡ js
take_all zero [] h = refl
take_all zero (j ∷ js) h = absurd (omega arith)
take_all (suc n) [] h = refl
take_all (suc n) (j ∷ js) h = ap (◌∷◌ j) (take_all n js (omega arith))

length-select :
    (st : JobStatus) (q : Job → Bool) (js : List Job)
    → length (select (λ j. is j.status st && q j) js) ≤ count_by_status st js
unfolding select count_by_status
length-select st q [] = omega arith
length-select st q (j ∷ js) = ground (arith, length-select st q js)

-- The row of a job that is SCHEDULED and waits under its schedule time.
abbrev pub IsWaiting : ℕ → Job → Backend → Type 0
IsWaiting n job s =
    (find_by_id n s.jobs ≡ some job) × (get_key n s.delay_queue ≡ some (time_of job.schedule_time))

-- A step of the loop for another job, and one for a stale copy of the same job.
schedule-IsWaiting :
    (n : ℕ) (job k : Job) (s : Backend)
    → job.status ≡ scheduled
    → IsCopy s.jobs k
    → is k.status pending ≡ true
    → IsWaiting n job s
    → IsWaiting n job (
        schedule_job k.id
          (time_of k.schedule_time)
          (record s { jobs = save (as_scheduled k) s.jobs }))
unfolding schedule_job
schedule-IsWaiting n job k s ready copy from (row, key) = elim (Bool-cases (k.id == n)) [
  | inr other ↦ (
    find_by_id-save n (as_scheduled k) s.jobs ∙ rw other row,
    get_key-put_key k.id (time_of k.schedule_time) n s.delay_queue ∙ rw other key,
  )
  | inl same ↦ (
    find_by_id-save n (as_scheduled k) s.jobs ∙ rw same (ap some (stale same)),
    get_key-put_key k.id (time_of k.schedule_time) n s.delay_queue
        ∙ rw same (ap (λ j. some (time_of j.schedule_time)) {x = as_scheduled k} (stale same)),
  )
]
  where
    stale : (k.id == n) ≡ true → as_scheduled k ≡ job
    stale same =
        elim (subst
          (λ m. (find_by_id m s.jobs ≡ some k) ⊎ (find_by_id m s.jobs ≡ some (as_scheduled k)))
          ((==_iff k.id n).0 same) copy) [
            | inl fresh ↦ absurd (clash (some_inj k job (find_by_id n s.jobs) fresh row))
            | inr old ↦ some_inj (as_scheduled k) job (find_by_id n s.jobs) old row
          ]
      where
        clash : k ≡ job → ⊥
        clash e = ground (arith, ap (λ (j : Job). j.status) e)

watch_pending-IsWaiting :
    (n : ℕ) (job : Job) (js : List Job) (s : Backend)
    → job.status ≡ scheduled
    → Copies js s
    → IsWaiting n job s
    → IsWaiting n job (watch_pending js s)
unfolding watch_pending
watch_pending-IsWaiting n job [] s ready h w = w
watch_pending-IsWaiting n job (k ∷ ks) s ready (c, cs) w = elim (Bool-cases (is k.status pending)) [
  | inr other ↦ rw (watch_pending, other) (watch_pending-IsWaiting n job ks s ready cs w)
  | inl from ↦
      rw (watch_pending, from)
        (watch_pending-IsWaiting n job ks _ ready
          (unfold schedule_job in scheduled-Copies k ks s c cs)
          (schedule-IsWaiting n job k s ready c from w))
]
